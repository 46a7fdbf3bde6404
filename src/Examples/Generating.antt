-- ===== src/Examples/Generating.antt =====
-- The generator on a bus with a drive behind a coupler, and the sniffer on its config file.
use kddv.Base.{
  ◌≡◌, refl, sym, ap, ◌∙◌, some-injective, pos, ◌+ℤ◌, true, false, none, some, List, [], ◌∷◌, arith,
  if◌then◌else◌, ◌==◌,
}
use kddv.Text.{Text, text, str_eq}
use kddv.Slave.{EthercatSlave, kelo_drive}
use kddv.Source.{get_slave_type, make_device}
use kddv.Sniffer.{PacketSniffer}
use kddv.Generator.{
  SdoRead, Mapped, si_pdo_assign, si_map_sdo, sm_loop, map_sm, map_type, map_outputs, map_inputs,
  assign_loop, assign_pdo, entry_loop, map_entry,
}
use kddv.Generator.Endless.{si_pdo_assign_endless}
use kddv.Generator.Mapping.{si_pdo_assign_bits, total_bits}
use kddv.Generator.Info.{BusSlave, Bus, is_supported, get_info}
use kddv.Generator.Listed.{Listed, skipped, listed, done, slave_for}
use kddv.Generator.RoundTrip.{get_slaves-get_info}
use kddv.Generator.Main.{Styled, Disk}
use kddv.Generator.Main.ReadBack.{Agreement, ReadsBack}
use kddv.Examples.JsonModel.{Json, json, json_laws, array_laws}
use kddv.Examples.Devices.{memory, drive_memory}

-- Four sync managers of types 1 to 4. Manager 2 has one PDO of two entries, of 16 and 32 bits;
-- manager 3 has one PDO of one entry of 64 bits.
abbrev pub dictionary : SdoRead
dictionary slave index sub =
    if index == 0x1c00
    then (pos 1, if sub == 0 then 4 else sub)
    else if index == 0x1c12
    then (pos 1, if sub == 0 then 1 else 0x1600)
    else if index == 0x1c13
    then (pos 1, if sub == 0 then 1 else 0x1a00)
    else if index == 0x1600
    then (pos 1, if sub == 0 then 2 else if sub == 1 then 0x10 else 0x20)
    else if index == 0x1a00
    then (pos 1, if sub == 0 then 1 else 0x40)
    else (pos 0, 0)

abbrev pub mapped : Mapped
mapped = record {
  ect_sdo_smcommtype = 0x1c00;
  ect_sdo_pdoassign = 0x1c10;
  ec_maxsm = 8;
  outputs = λ slave. pos 12;
  inputs = λ slave. pos 152;
}

map_run :
    si_map_sdo 3 dictionary mapped 2
    ≡ some (
      true,
      record {
        smt_bug_add = 0;
        outputs_bo = 48;
        inputs_bo = 64;
        rx_offset = some (pos 12);
        tx_offset = some (pos 152);
      },
    )
unfolding si_map_sdo sm_loop map_sm map_type map_outputs map_inputs si_pdo_assign assign_loop
    assign_pdo entry_loop map_entry ◌+ℤ◌
map_run = refl

si_pdo_assign_bits_example :
    si_pdo_assign 3 dictionary 2 0x1c12 (pos 12) 8 none ≡ some (some (48, some (pos 13)))
unfolding total_bits ◌+ℤ◌
si_pdo_assign_bits_example =
    si_pdo_assign_bits dictionary 2 0x1c12 (pos 12) 3 8 none 0 0 refl (omega arith) (omega arith)
      (omega arith) (omega arith)

si_pdo_assign_endless_example :
    si_pdo_assign 100 (λ slave index sub. (pos 1, 65535)) 2 0x1c12 (pos 12) 0 none ≡ none
si_pdo_assign_endless_example =
    si_pdo_assign_endless (λ slave index sub. (pos 1, 65535)) 2 0x1c12 (pos 12) 100 0 none 0 refl

abbrev coupler : BusSlave
coupler = record { name = text "EK1100"; eep_man = 2; eep_id = 3; eep_rev = 4; configadr = 4097 }

abbrev drive : BusSlave
drive = record {
  name = text "KELOD105";
  eep_man = 1280;
  eep_id = 33558529;
  eep_rev = 1020;
  configadr = 4098;
}

abbrev pub bus : Bus
bus = record { init = true; config = pos 2; safe_op = true; slaves = coupler ∷ drive ∷ [] }

abbrev pub found : EthercatSlave
found = slave_for 2 drive (kelo_drive drive_memory) (pos 12) (pos 152)

pub bus_Listed : Listed memory 3 dictionary mapped bus.slaves 1 (found ∷ [])
unfolding is_supported str_eq make_device get_slave_type
bus_Listed = skipped refl (
    listed (kelo_drive drive_memory) true _ (pos 12) (pos 152) refl refl map_run (refl, refl)
      (omega arith, omega arith) (omega arith) (omega arith) done)

abbrev pub sniffer : PacketSniffer json
sniffer = record {
  slaves = [];
  config = json.null;
  zmq_publish_enabled = false;
  sniffer_thread = false;
}

-- A library that writes one text, and reads it back as the tree of this bus.
abbrev tree : Json
tree =
    (get_slaves-get_info json json_laws array_laws memory 3 dictionary mapped bus (found ∷ [])
      sniffer [] refl refl bus_Listed).0

abbrev pub styled : Styled json
styled = record {
  write = λ v. text "{}";
  read = λ t. if str_eq t (text "{}") then some tree else none;
}

abbrev pub agreement : Agreement json
agreement = record {
  Same = λ v w. v ≡ w;
  get-Same = λ v w k e. ap (λ x. json.get x k) e;
  at-Same = λ v w i e. ap (λ x. json.at x i) e;
  size-Same = λ v w e. ap json.size e;
  empty-Same = λ v w e. ap json.empty e;
  as_int-Same = λ v w e. ap json.as_int e;
  as_string-Same = λ v w e. ap json.as_string e;
}

abbrev pub disk : Disk
disk = record { contents = λ f. none; writable = λ f. true }

tree_made :
    (root : Json) (messages : List Text)
    → get_info json 3 dictionary mapped bus ≡ some (root, messages)
    → root ≡ tree
tree_made root messages h =
    let (_, _, made, _) =
      get_slaves-get_info json json_laws array_laws memory 3 dictionary mapped bus (found ∷ [])
        sniffer [] refl refl bus_Listed in
    ap (λ r. r.0) (some-injective _ _ (sym h ∙ made))

pub reads_tree :
    (root : Json) (messages : List Text)
    → get_info json 3 dictionary mapped bus ≡ some (root, messages)
    → ReadsBack json styled agreement root
unfolding str_eq
reads_tree root messages h = (tree, refl, tree_made root messages h)
