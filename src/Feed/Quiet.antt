-- ===== src/Feed/Quiet.antt =====
-- Which calls of include/ethercat_data_source.h set threads going.
use kddv.Base.{
  ◌≡◌, refl, sym, Bool, false, Bool-cases, Option-cases, inl, inr, Option, none, some,
  some-injective, >>=-eq-some, [], arith,
}
use kddv.Text.{Text, text, is_empty}
use kddv.Json.{JsonLib}
use kddv.Sniffer.Setup
use kddv.Sniffer.Setup.{ConfigFile, set_config_file, slaves_from}
use kddv.Sniffer.{PacketSniffer}
use kddv.Source.{Uninitialised}
use kddv.Master
use kddv.Master.{Started, failed, idle, running}
use kddv.Feed
use kddv.Feed.{
  EthercatMaster, World, Source, ethercat_master, packet_sniffer, threads_run, set_zmq_publish,
  after_start, Chosen, ready, refused, null_source, new_sniffer, configured,
}

module _ (J : JsonLib) where
  pub threads_run-stop : (s : Source J) → threads_run J (some (Feed.stop J s)) ≡ false
  threads_run-stop (ethercat_master m) = refl
  threads_run-stop (packet_sniffer s) = refl

  pub threads_run-set_zmq_publish :
      (value : Bool) (s : Source J)
      → threads_run J (some (set_zmq_publish J value s)) ≡ threads_run J (some s)
  threads_run-set_zmq_publish value (ethercat_master m) = refl
  threads_run-set_zmq_publish value (packet_sniffer s) = refl

  sniffer_thread-get_slaves :
      (u : Uninitialised) (s : PacketSniffer J) (error : Text) (r : PacketSniffer J × Text)
      → Setup.get_slaves J u s error ≡ some r
      → r.0.sniffer_thread ≡ s.sniffer_thread
  unfolding Setup.get_slaves
  sniffer_thread-get_slaves u s error r h = elim (Bool-cases (J.empty s.config)) [
    | inl empty ↦ let made = rw empty at h in rw (sym (some-injective _ _ made)) refl
    | inr some_config ↦
        let (slaves, _, made) =
          >>=-eq-some
            (slaves_from J u (J.get s.config (text "Slaves"))
              (J.size (J.get s.config (text "Slaves"))) 0 [])
            _ (rw some_config at h) in
        rw (sym (some-injective _ _ made)) refl
  ]

  pub threads_run-get_slaves :
      (w : World J) (s : Source J) (error : Text) (r : Source J × Text)
      → Feed.get_slaves J w s error ≡ some r
      → threads_run J (some r.0) ≡ threads_run J (some s)
  unfolding Feed.get_slaves
  threads_run-get_slaves w (ethercat_master m) error r h =
      let (found, _, made) = >>=-eq-some (Master.get_slaves w.fresh (w.bus m.ifname) error) _ h in
      rw (sym (some-injective _ _ made)) refl
  threads_run-get_slaves w (packet_sniffer s) error r h =
      let (found, at_found, made) = >>=-eq-some (Setup.get_slaves J w.fresh.memory s error) _ h in
      rw (sym (some-injective _ _ made))
        (sniffer_thread-get_slaves w.fresh.memory s error found at_found)

  after_start_failed :
      (m : EthercatMaster) (r : Started)
      → is_empty (after_start J m [] r).1 ≡ false
      → threads_run J (some (after_start J m [] r).0) ≡ m.ethercat_running
  unfolding after_start
  after_start_failed m (failed e) h = refl
  after_start_failed m (idle miscounted) h = refl
  after_start_failed m (running miscounted) h = absurd (ground (arith, h))

  -- Where `start` gives an error, it has started no thread.
  pub start_failed :
      (w : World J) (s : Source J)
      → is_empty (Feed.start J w s []).1 ≡ false
      → threads_run J (some (Feed.start J w s []).0) ≡ threads_run J (some s)
  unfolding Feed.start
  start_failed w (ethercat_master m) h = after_start_failed m _ h
  start_failed w (packet_sniffer s) h = absurd (ground (arith, h))

  -- A source that a UI has just opened.
  abbrev pub Unstarted : Option (Chosen J) → Type 0
  Unstarted none = Unit {0}
  Unstarted (some (ready s)) = threads_run J (some s) ≡ false
  Unstarted (some (refused error_msg)) = Unit {0}
  Unstarted (some null_source) = Unit {0}

  sniffer_thread-set_config_file :
      (files : Text → ConfigFile J) (s : PacketSniffer J) (filename error_msg : Text)
      (r : PacketSniffer J × Text)
      → set_config_file J files s filename error_msg ≡ some r
      → r.0.sniffer_thread ≡ s.sniffer_thread
  unfolding set_config_file
  sniffer_thread-set_config_file files s filename error_msg r h = ground (arith, h)

  pub configured-Unstarted :
      (files : Text → ConfigFile J) (config_file_name : Text)
      → Unstarted (configured J files config_file_name)
  unfolding configured
  configured-Unstarted files config_file_name =
      elim (Option-cases (set_config_file J files (new_sniffer J) config_file_name [])) [
        | inl e ↦ rw e tt
        | inr ((s, error_msg), e) ↦ elim (Bool-cases (is_empty error_msg)) [
          | inl fine ↦
              rw (e, fine)
                (sniffer_thread-set_config_file files (new_sniffer J) config_file_name []
                  (s, error_msg) e)
          | inr wrong ↦ rw (e, wrong) tt
        ]
      ]
