-- ===== src/Generator/RoundTrip.antt =====
-- The sniffer reads back what the generator wrote: the slaves that it makes from a generated config
-- file are the supported slaves on the bus.
use kddv.Base.{
  ℕ, suc, ◌+◌, ◌<◌, ◌^◌, ◌≡◌, refl, sym, ap, ◌∙◌, ℤ, pos, true, false, some, List, [], ◌∷◌, ◌++◌,
  length, length-append, if◌then◌else◌, append_assoc, append-nil, arith,
}
use kddv.Text.{Text, text}
use kddv.Text.Keys.{distinct, distinct-Distinct}
use kddv.Json.{JsonLib, JsonLaws, ArrayLaws, IsInt}
use kddv.Json.Objects.{get-set_all, At, At-append}
use kddv.Slave.{EthercatSlave, Device}
use kddv.Source.{get_slave_type, Uninitialised, make_device}
use kddv.Sniffer.{PacketSniffer}
use kddv.Sniffer.Setup.{slave_of_entry, slaves_from, get_slaves}
use kddv.Generator.{SdoRead, Mapped, is_positive}
use kddv.Generator.Info.{
  BusSlave, Bus, entry_fields, slave_entry, append_entry, add_slave, info_loop, get_info,
}
use kddv.Generator.Listed.{slave_for, IdsFit, Listed, done, skipped, listed, entry_names}

module _ (J : JsonLib) (L : JsonLaws J) (A : ArrayLaws J) (u : Uninitialised) where
  open L use {IsObject, null-IsObject, set-IsObject, get-set_self}
  open A use {IsArray, as_int-of_int, as_int-of_uint, as_string-of_string}

  slave_of_entry_read :
      (cnt : ℕ) (b : BusSlave) (d : Device) (rx tx : ℤ)
      → make_device u (get_slave_type b.name) ≡ some d
      → IdsFit b
      → cnt < 2 ^ 31
      → IsInt rx
      → IsInt tx
      → slave_of_entry J u (slave_entry J cnt b rx tx) ≡ some (slave_for cnt b d rx tx)
  unfolding slave_of_entry slave_entry distinct
  slave_of_entry_read cnt b d rx tx made ids number rx_int tx_int =
      let f =
        get-set_all J L (entry_fields J cnt b rx tx) J.null null-IsObject
          (distinct-Distinct entry_names refl) in
      rw (
        f.0,
        as_string-of_string b.name,
        made,
        f.1.0,
        as_int-of_int (pos cnt) (omega arith),
        f.1.1.0,
        as_int-of_uint b.eep_man ids.man_fits,
        f.1.1.1.0,
        as_int-of_uint b.eep_id ids.id_fits,
        f.1.1.1.1.0,
        as_int-of_uint b.eep_rev ids.rev_fits,
        f.1.1.1.1.1.0,
        as_int-of_int (pos b.configadr) (omega arith),
        f.1.1.1.1.1.1.0,
        as_int-of_int rx rx_int,
        f.1.1.1.1.1.1.1.0,
        as_int-of_int tx tx_int,
      )

  -- The sniffer makes these slaves of these entries.
  abbrev Reads : List J.Value → List EthercatSlave → Type 0
  Reads [] [] = Unit {0}
  Reads [] (s ∷ ss) = ⊥
  Reads (e ∷ es) [] = ⊥
  Reads (e ∷ es) (s ∷ ss) = (slave_of_entry J u e ≡ some s) × Reads es ss

  Reads-append :
      (es : List J.Value) (ss : List EthercatSlave) (e : J.Value) (s : EthercatSlave)
      → Reads es ss
      → slave_of_entry J u e ≡ some s
      → Reads (es ++ e ∷ []) (ss ++ s ∷ [])
  Reads-append [] [] e s h r = (r, tt)
  Reads-append [] (x ∷ ss) e s h r = absurd h
  Reads-append (y ∷ es) [] e s h r = absurd h
  Reads-append (y ∷ es) (x ∷ ss) e s h r = (h.0, Reads-append es ss e s h.1 r)

  slaves_from-Reads :
      (es : List J.Value) (ss acc : List EthercatSlave) (v : J.Value) (i : ℕ)
      → At J v i es
      → Reads es ss
      → slaves_from J u v (length es) i acc ≡ some (acc ++ ss)
  unfolding slaves_from
  slaves_from-Reads [] [] acc v i h r = ap some (sym (append-nil acc))
  slaves_from-Reads [] (s ∷ ss) acc v i h r = absurd r
  slaves_from-Reads (e ∷ es) [] acc v i h r = absurd r
  slaves_from-Reads (e ∷ es) (s ∷ ss) acc v i h r =
      rw (h.0, r.0)
        (slaves_from-Reads es ss (acc ++ s ∷ []) v (i + 1) h.1 r.1
          ∙ ap some (append_assoc acc (s ∷ []) ss))

  -- A tree whose entries read as these slaves.
  record Holds (root : J.Value) (ss : List EthercatSlave) : Type 0 where
    is_object : IsObject root
    not_empty : J.empty root ≡ false
    entries : List J.Value
    is_array : IsArray (J.get root (text "Slaves"))
    sized : J.size (J.get root (text "Slaves")) ≡ length entries
    placed : At J (J.get root (text "Slaves")) 0 entries
    reads : Reads entries ss

  append_entry-Holds :
      (root e : J.Value) (ss : List EthercatSlave) (s : EthercatSlave)
      → Holds root ss
      → slave_of_entry J u e ≡ some s
      → Holds (append_entry J root e) (ss ++ s ∷ [])
  unfolding append_entry
  append_entry-Holds root e ss s h r =
      let v = J.get root (text "Slaves") in
      let stored = get-set_self root (text "Slaves") (J.append v e) h.is_object in
      record {
        is_object = set-IsObject root _ _ h.is_object;
        not_empty = L.empty-set root _ _ h.is_object;
        entries = h.entries ++ e ∷ [];
        is_array = rw stored (A.append-IsArray v e h.is_array);
        sized = rw stored (
            A.size-append v e h.is_array
            ∙ omega (arith, h.sized, length-append {0} h.entries (e ∷ [])));
        placed =
            rw stored (At-append J A h.entries 0 v e h.is_array (omega (arith, h.sized)) h.placed);
        reads = Reads-append h.entries ss e s h.reads r;
      }

  info_loop-Holds :
      (fuel : ℕ) (read : SdoRead) (m : Mapped) (slaves : List BusSlave) (cnt : ℕ) (root : J.Value)
      (old new : List EthercatSlave)
      → Holds root old
      → Listed u fuel read m slaves cnt new
      → (root' : J.Value) × (info_loop J fuel read m slaves cnt root ≡ some root')
        × Holds root' (old ++ new)
  unfolding info_loop add_slave
  info_loop-Holds fuel read m [] cnt root old _ h done = (root, refl, rw append-nil h)
  info_loop-Holds fuel read m (b ∷ rest) cnt root old new h (skipped off l) =
      let (root', e, h') = info_loop-Holds fuel read m rest (suc cnt) root old new h l in
      (root', rw off e, h')
  info_loop-Holds fuel read m (b ∷ rest) cnt root old _ h
        (listed {ss = ss} d found o rx tx on made mapped
          (rx_is, tx_is)
          (rx_int, tx_int)
          ids
          number
          l) =
      let entry = slave_entry J cnt b rx tx in
      let h₁ =
        append_entry-Holds root entry old (slave_for cnt b d rx tx) h
          (slave_of_entry_read cnt b d rx tx made ids number rx_int tx_int) in
      let (root', e, h') =
        info_loop-Holds fuel read m rest (suc cnt) (append_entry J root entry)
          (old ++ slave_for cnt b d rx tx ∷ []) ss h₁ l in
      (root', rw (on, mapped, rx_is, tx_is) e, rw append_assoc at h')

  empty_root-Holds : Holds (J.set J.null (text "Slaves") J.array) []
  empty_root-Holds =
      let stored = get-set_self J.null (text "Slaves") J.array null-IsObject in
      record {
        is_object = set-IsObject J.null _ _ null-IsObject;
        not_empty = L.empty-set J.null _ _ null-IsObject;
        entries = [];
        is_array = rw stored A.array-IsArray;
        sized = rw stored A.size-array;
        placed = tt;
        reads = tt;
      }

  get_slaves-Holds :
      (root : J.Value) (ss : List EthercatSlave) (s : PacketSniffer J) (error : Text)
      → Holds root ss
      → get_slaves J u (record s { config = root }) error
        ≡ some (record s { config = root; slaves = ss }, error)
  unfolding get_slaves
  get_slaves-Holds root ss s error h = rw (
    h.not_empty,
    h.sized,
    slaves_from-Reads h.entries ss [] (J.get root (text "Slaves")) 0 h.placed h.reads,
  )

  -- For an interface that opens and a bus with slaves, of which each supported one has offsets that
  -- `si_map_sdo` finds and numbers that fit an `int`: the generator ends with a tree from which any
  -- sniffer makes, without error, exactly the supported slaves in the order of the bus, each with
  -- its name, type, position, identity, address and both offsets.
  pub get_slaves-get_info :
      (fuel : ℕ) (read : SdoRead) (m : Mapped) (bus : Bus) (ss : List EthercatSlave)
      (s : PacketSniffer J) (error : Text)
      → bus.init ≡ true
      → is_positive bus.config ≡ true
      → Listed u fuel read m bus.slaves 1 ss
      → (root : J.Value) × (messages : List Text) × (get_info J fuel read m bus
          ≡ some (root, messages))
        × (get_slaves J u (record s { config = root }) error
            ≡ some (record s { config = root; slaves = ss }, error))
  unfolding get_info
  get_slaves-get_info fuel read m bus ss s error opens configured l =
      let (root, e, h) =
        info_loop-Holds fuel read m bus.slaves 1 (J.set J.null (text "Slaves") J.array) [] ss
          empty_root-Holds l in
      (
        root,
        if bus.safe_op then [] else text "Not in SAFE_OP state" ∷ [],
        rw (opens, configured, e),
        get_slaves-Holds root ss s error h,
      )
