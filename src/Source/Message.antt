-- ===== src/Source/Message.antt =====
-- The JSON message holds every slave's data under the slave's own key.
use kddv.Base.{ℕ, ◌≡◌, ◌≢◌, refl, sym, ◌∙◌, List, [], ◌∷◌, All}
use kddv.Text.{Text, text}
use kddv.Json.{JsonLib, JsonLaws}
use kddv.Slave
use kddv.Slave.{EthercatSlave, slave_id, SlaveInfo}
use kddv.Slave.Keys.{slave_id_injective, slave_id-ne-timestamp}
use kddv.Source.{add_slaves, message_root}

-- No two slaves have the same position in the ring.
abbrev pub DistinctNumbers : List EthercatSlave → Type 0
DistinctNumbers [] = Unit {0}
DistinctNumbers (s ∷ rest) =
    All (λ t. s.slave_info.slave_number ≢ t.slave_info.slave_number) rest × DistinctNumbers rest

module _ (J : JsonLib) (L : JsonLaws J) where
  open J use {get, set, null, Value}
  open L use {IsObject, null-IsObject, set-IsObject, get-set_self, get-set_ne}

  -- A key of none of the slaves keeps its value.
  add_slaves_apart :
      (k : Text) (slaves : List EthercatSlave) (root : Value)
      → IsObject root
      → All (λ t. slave_id t.slave_info ≢ k) slaves
      → get (add_slaves J root slaves) k ≡ get root k
  unfolding add_slaves
  add_slaves_apart k [] root o a = refl
  add_slaves_apart k (s ∷ rest) root o a =
      add_slaves_apart k rest _ (set-IsObject root _ _ o) a.1
      ∙ get-set_ne root (slave_id s.slave_info) k _ o a.0

  numbers→keys :
      (s : EthercatSlave) (rest : List EthercatSlave)
      → All (λ t. s.slave_info.slave_number ≢ t.slave_info.slave_number) rest
      → All (λ t. slave_id t.slave_info ≢ slave_id s.slave_info) rest
  numbers→keys s [] h = tt
  numbers→keys s (t ∷ rest) h =
      (λ e. h.0 (sym (slave_id_injective t.slave_info s.slave_info e).1), numbers→keys s rest h.1)

  add_slaves_holds :
      (slaves : List EthercatSlave) (root : Value)
      → IsObject root
      → DistinctNumbers slaves
      → All
          (λ s.
            get (add_slaves J root slaves) (slave_id s.slave_info)
            ≡ Slave.convert_to_json J s.device null)
          slaves
  unfolding add_slaves
  add_slaves_holds [] root o d = tt
  add_slaves_holds (s ∷ rest) root o d = (
    add_slaves_apart (slave_id s.slave_info) rest _ (set-IsObject root _ _ o)
          (numbers→keys s rest d.0)
        ∙ get-set_self root _ _ o,
    add_slaves_holds rest _ (set-IsObject root _ _ o) d.1,
  )

  not_timestamp :
      (slaves : List EthercatSlave) → All (λ t. slave_id t.slave_info ≢ text "timestamp") slaves
  not_timestamp [] = tt
  not_timestamp (s ∷ rest) = (slave_id-ne-timestamp s.slave_info, not_timestamp rest)

  -- The message holds the time under "timestamp", and for slaves at distinct positions it holds each
  -- slave's commands and sensors under the slave's name and number: no slave overwrites another,
  -- nor the time.
  pub message_holds :
      (now : ℕ) (slaves : List EthercatSlave)
      → DistinctNumbers slaves
      → (get (message_root J now slaves) (text "timestamp") ≡ J.of_millis now)
        × All
            (λ s.
              get (message_root J now slaves) (slave_id s.slave_info)
              ≡ Slave.convert_to_json J s.device null)
            slaves
  unfolding message_root
  message_holds now slaves d =
      let o = set-IsObject null (text "timestamp") (J.of_millis now) null-IsObject in
      (
        add_slaves_apart (text "timestamp") slaves _ o (not_timestamp slaves)
            ∙ get-set_self null (text "timestamp") (J.of_millis now) null-IsObject,
        add_slaves_holds slaves _ o d,
      )
