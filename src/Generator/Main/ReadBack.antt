-- ===== src/Generator/Main/ReadBack.antt =====
-- What a sniffer of src/packet_sniffer.cpp makes of the file that src/generate_config_file.cpp
-- wrote.
use kddv.Base.{
  ℕ, zero, suc, ◌+◌, ◌≡◌, refl, sym, ap, ◌∙◌, true, some, ◌>>=◌, List, [], ◌∷◌, ◌++◌, fun_ext, inl,
  inr, Bool-cases, some-injective, >>=-eq-some,
}
use kddv.Text.{Text, text}
use kddv.Text.Keys.{str_eq_iff}
use kddv.Json.{JsonLib, JsonLaws, ArrayLaws}
use kddv.Slave.{EthercatSlave}
use kddv.Source.{Uninitialised}
use kddv.Sniffer.{PacketSniffer}
use kddv.Sniffer.Setup
use kddv.Sniffer.Setup.{
  ConfigFile, missing, malformed, parsed, set_config_file, slave_of_entry, slaves_from, get_slaves,
}
use kddv.Generator.{SdoRead, Mapped, is_positive}
use kddv.Generator.Main.{Styled, Disk, write_file, config_in, config_of, main}
use kddv.Generator.Info.{Bus, get_info}
use kddv.Generator.Listed.{Listed}
use kddv.Generator.RoundTrip.{get_slaves-get_info}

-- Two values that the conversions and members of jsoncpp do not tell apart, such as a value and what
-- is read back of it; a small unsigned number comes back as a signed one.
pub record Agreement (J : JsonLib) : Type 1 where
  pub Same : J.Value → J.Value → Type 0
  pub get-Same : (v w : J.Value) (k : Text) → Same v w → Same (J.get v k) (J.get w k)
  pub at-Same : (v w : J.Value) (i : ℕ) → Same v w → Same (J.at v i) (J.at w i)
  pub size-Same : (v w : J.Value) → Same v w → J.size v ≡ J.size w
  pub empty-Same : (v w : J.Value) → Same v w → J.empty v ≡ J.empty w
  pub as_int-Same : (v w : J.Value) → Same v w → J.as_int v ≡ J.as_int w
  pub as_string-Same : (v w : J.Value) → Same v w → J.as_string v ≡ J.as_string w

module _ (J : JsonLib) (G : Agreement J) (u : Uninitialised) where
  open G use {Same}

  int_of : (v w : J.Value) (k : Text) → Same v w → J.as_int (J.get v k) ≡ J.as_int (J.get w k)
  int_of v w k h = G.as_int-Same _ _ (G.get-Same v w k h)

  slave_of_entry-Same : (v w : J.Value) → Same v w → slave_of_entry J u v ≡ slave_of_entry J u w
  unfolding slave_of_entry
  slave_of_entry-Same v w h =
      rw
        (
          G.as_string-Same _ _ (G.get-Same v w (text "Name") h),
          int_of v w (text "Slave ID") h,
          int_of v w (text "EEP Man") h,
          int_of v w (text "EEP ID") h,
          int_of v w (text "EEP Rev") h,
          int_of v w (text "Address") h,
          int_of v w (text "RX start offset") h,
          int_of v w (text "TX start offset") h,
        )
        refl

  slaves_from-Same :
      (v w : J.Value) (count i : ℕ) (slaves : List EthercatSlave)
      → Same v w
      → slaves_from J u v count i slaves ≡ slaves_from J u w count i slaves
  unfolding slaves_from
  slaves_from-Same v w zero i slaves h = refl
  slaves_from-Same v w (suc count) i slaves h =
      ap (λ m. m >>= λ s. slaves_from J u v count (i + 1) (slaves ++ (s ∷ [])))
        (slave_of_entry-Same (J.at v i) (J.at w i) (G.at-Same v w i h))
      ∙ ap (λ f. slave_of_entry J u (J.at w i) >>= f)
          (fun_ext (λ s. slaves_from-Same v w count (i + 1) (slaves ++ (s ∷ [])) h))

  get_slaves-Same :
      (v w : J.Value) (s : PacketSniffer J) (error : Text) (ss : List EthercatSlave) (e : Text)
      → Same v w
      → get_slaves J u (record s { config = v }) error
        ≡ some (record s { config = v; slaves = ss }, e)
      → get_slaves J u (record s { config = w }) error
        ≡ some (record s { config = w; slaves = ss }, e)
  unfolding get_slaves
  get_slaves-Same v w s error ss e h made =
      let kept : PacketSniffer J × Text → PacketSniffer J × Text =
        λ r. (record r.0 { config = w }, r.1) in
      let inner = G.get-Same v w (text "Slaves") h in
      elim (Bool-cases (J.empty v)) [
        | inl is_empty ↦
            rw (sym (G.empty-Same v w h), is_empty)
              (ap (λ r. some (kept r)) (some-injective _ _ (rw is_empty at made)))
        | inr full ↦
            let (list, from_v, last) =
              >>=-eq-some
                (slaves_from J u (J.get v (text "Slaves")) (J.size (J.get v (text "Slaves"))) 0 [])
                _ (rw full at made) in
            let from_w = sym (slaves_from-Same _ _ _ 0 [] inner) ∙ from_v in
            rw (sym (G.empty-Same v w h), full, sym (G.size-Same _ _ inner), from_w)
              (ap (λ r. some (kept r)) (some-injective _ _ last))
      ]

module _ (J : JsonLib) (S : Styled J) where
  -- jsoncpp reads back what it has written of this value.
  abbrev pub ReadsBack : Agreement J → J.Value → Type 0
  ReadsBack G v = (w : J.Value) × (S.read (S.write v) ≡ some w) × G.Same v w

  written :
      (name content : Text) (disk : Disk)
      → disk.writable name ≡ true
      → (write_file name content disk).contents name ≡ some content
  unfolding write_file
  written name content disk can = rw (can, (str_eq_iff name name).1 refl) refl

  stored :
      (name : Text) (v w : J.Value) (disk : Disk)
      → disk.writable name ≡ true
      → S.read (S.write v) ≡ some w
      → config_of J S (write_file name (S.write v) disk) name ≡ parsed w
  unfolding config_in
  stored name v w disk can back =
      ap (config_in J S) (written name (S.write v) disk can) ∙ rw (config_in, back) refl

  set_config-parsed :
      (files : Text → ConfigFile J) (s : PacketSniffer J) (name : Text) (w : J.Value)
      (error_msg : Text)
      → files name ≡ parsed w
      → set_config_file J files s name error_msg ≡ some (record s { config = w }, error_msg)
  unfolding set_config_file Setup.load_config Setup.store_config
  set_config-parsed files s name w error_msg e = rw e refl

module _ (J : JsonLib) (L : JsonLaws J) (A : ArrayLaws J) (S : Styled J) (G : Agreement J)
    (u : Uninitialised) where
  -- For an interface that opens, a bus with slaves of which each supported one has offsets that
  -- `si_map_sdo` finds and numbers that fit an `int`, a file that can be written, and a tree that
  -- jsoncpp reads back as it wrote it: the generator ends, and whatever sniffer then takes that file
  -- as its config file gets no error, and makes from it exactly the supported slaves in the order of
  -- the bus, each with its name, type, position, identity, address and both offsets.
  pub generated_config :
      (fuel : ℕ) (read : SdoRead) (m : Mapped) (bus : Text → Bus) (ss : List EthercatSlave)
      (disk : Disk) (ifname filename : Text) (rest : List Text) (s : PacketSniffer J) (error : Text)
      → (bus ifname).init ≡ true
      → is_positive (bus ifname).config ≡ true
      → Listed u fuel read m (bus ifname).slaves 1 ss
      → disk.writable filename ≡ true
      → ((root : J.Value) (messages : List Text)
          → get_info J fuel read m (bus ifname) ≡ some (root, messages)
          → ReadsBack J S G root)
      → (disk' : Disk) × (lines : List Text) × (config : J.Value) × (main J S fuel read m bus disk
            (ifname ∷ filename ∷ rest)
          ≡ some (disk', lines))
        × (set_config_file J (config_of J S disk') s filename error
            ≡ some (record s { config = config }, error))
        × (get_slaves J u (record s { config = config }) error
            ≡ some (record s { config = config; slaves = ss }, error))
  unfolding main
  generated_config fuel read m bus ss disk ifname filename rest s error opens configured l can
        reads =
      let (root, messages, info, gives) =
        get_slaves-get_info J L A u fuel read m (bus ifname) ss s error opens configured l in
      let (w, back, same) = reads root messages info in
      (
        write_file filename (S.write root) disk,
        messages ++ ((text "Wrote config to " ++ filename) ∷ []),
        w,
        rw info refl,
        set_config-parsed J S _ s filename w error (stored J S filename root w disk can back),
        get_slaves-Same J G u root w s error ss error same gives,
      )
