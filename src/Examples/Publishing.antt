-- ===== src/Examples/Publishing.antt =====
-- A subscriber whose queue holds one message, and a port that is taken.
use kddv.Base.{
  All, ◌≡◌, refl, ◌⊎◌, inl, inr, Bool, true, false, Option, none, some, List, [], ◌∷◌, ◌++◌, take,
  if◌then◌else◌, some-injective, sym, arith,
}
use kddv.Text.{Text, text, str_eq}
use kddv.Source.{convert_to_json}
use kddv.Sniffer.{working_counter, display, publish}
use kddv.Publisher.{Zmq, new_publisher, publish_events_on}
use kddv.Publisher.Subscriber.{Subscriber, Gets, publish_msg_whole, subscriber-Gets}
use kddv.Publisher.Master.{publish_reports, OfWhole, master_messages-OfWhole}
use kddv.Examples.Driving.{before, after, silent, shown, run}
use kddv.CommandLine.Spelling.{spell}
use kddv.Launch.{launched, tui_main, gui_main, mains-spell}
use kddv.Examples.CommandLines.{sniffing, sniffing-Ready}
use kddv.Examples.JsonModel.{json}
use kddv.Examples.Sniffing.{soem, sniffer, read_slaves, arrivals, seen}

-- A socket as the messages that its subscriber has.
abbrev send_one : Text → List Text → Option (List Text)
send_one message [] = some (message ∷ [])
send_one message (m ∷ ms) = some (m ∷ ms)

abbrev zmq : Zmq
zmq = record {
  Socket = List Text;
  pub_socket = [];
  bind = λ endpoint s. if str_eq endpoint (text "tcp://*:80") then none else some s;
  send = send_one;
  close = λ s. s;
  shutdown_context = λ s. s;
  close_context = λ s. s;
}

bound_empty :
    (taken : Bool) (bound : List Text) → (if taken then none else some []) ≡ some bound → bound ≡ []
bound_empty true bound h = ground arith
bound_empty false bound h = sym (some-injective _ _ h)

sent_or_not :
    (message : Text) (publisher sent : List Text)
    → send_one message publisher ≡ some sent
    → (sent ≡ publisher) ⊎ (sent ≡ publisher ++ (message ∷ []))
sent_or_not message [] sent h = inr (sym (some-injective _ _ h))
sent_or_not message (m ∷ ms) sent h = inl (sym (some-injective _ _ h))

abbrev subscriber : Subscriber zmq
subscriber = record {
  received = λ s. s;
  received-bind = λ endpoint bound h. bound_empty (str_eq endpoint (text "tcp://*:80")) bound h;
  received-send = sent_or_not;
}

taken_port : new_publisher zmq (text "80") ≡ none
unfolding new_publisher str_eq
taken_port = refl

free_port : new_publisher zmq (text "9872") ≡ some []
unfolding new_publisher str_eq
free_port = refl

published :
    publish_events_on zmq
      (working_counter 4 3
        ∷ display read_slaves
        ∷ publish (convert_to_json json 6 read_slaves)
        ∷ [])
      []
    ≡ some (convert_to_json json 6 read_slaves ∷ [])
unfolding publish_events_on
published = rw (publish_msg_whole zmq subscriber (convert_to_json json 6 read_slaves) []) refl

subscriber-Gets_example :
    Gets json true (read_slaves ∷ []) (convert_to_json json 6 read_slaves ∷ [])
subscriber-Gets_example =
    subscriber-Gets zmq subscriber json soem (text "9872") sniffer
      (record sniffer { slaves = read_slaves }) (take 2 arrivals)
      (working_counter 4 3
        ∷ display read_slaves
        ∷ publish (convert_to_json json 6 read_slaves)
        ∷ [])
      [] (convert_to_json json 6 read_slaves ∷ []) free_port seen published

-- The bus was exchanged and shown once, and published after `stop`.
reports_published :
    publish_reports zmq json (λ i. 6) 0 shown.reports []
    ≡ some (convert_to_json json 6 (after ∷ []) ∷ [])
unfolding publish_reports
reports_published =
    rw (publish_msg_whole zmq subscriber (convert_to_json json 6 (after ∷ [])) []) refl

master_messages-OfWhole_example :
    All
      (OfWhole zmq json subscriber (before ∷ []) shown.exchanged)
      (convert_to_json json 6 (after ∷ []) ∷ [])
master_messages-OfWhole_example =
    master_messages-OfWhole zmq json subscriber (before ∷ []) silent true shown (λ i. 6)
      (text "9872") [] (convert_to_json json 6 (after ∷ []) ∷ []) run free_port reports_published

mains-spell_example :
    (tui_main zmq (spell sniffing) ≡ launched sniffing [])
    × (gui_main zmq (spell sniffing) ≡ launched sniffing [])
unfolding new_publisher str_eq
mains-spell_example = mains-spell zmq sniffing sniffing-Ready
