-- ===== src/Publisher/Subscriber.antt =====
-- What a subscriber of src/zmq_publisher.cpp gets.
use kddv.Base.{
  ℕ, ◌≡◌, refl, sym, ap, subst, ◌∙◌, ◌⊎◌, inl, inr, Bool, true, some, some-injective, >>=-eq-some,
  List, [], ◌∷◌, ◌++◌, append_assoc, append-nil,
}
use kddv.Text.{Text}
use kddv.Memory.{memcpy-append}
use kddv.Json.{JsonLib}
use kddv.Slave.{EthercatSlave}
use kddv.Source.{convert_to_json}
use kddv.Sniffer.{Soem, Event, working_counter, display, publish, PacketSniffer}
use kddv.Sniffer.Loop.{Arrival, sniff_loop}
use kddv.Sniffer.Loop.Reports.{Reported, sniff_loop-Reported}
use kddv.Publisher.{Zmq, new_publisher, publish_msg, publish_events_on}

-- A subscriber that connects to a socket: it has got nothing before the first message, and gets each
-- message whole, after those before, or, where its queue is full, not at all.
pub record Subscriber (Z : Zmq) : Type 0 where
  pub received : Z.Socket → List Text
  pub received-bind :
      (endpoint : Text) (bound : Z.Socket)
      → Z.bind endpoint Z.pub_socket ≡ some bound
      → received bound ≡ []
  pub received-send :
      (message : Text) (publisher sent : Z.Socket)
      → Z.send message publisher ≡ some sent
      → (received sent ≡ received publisher)
        ⊎ (received sent ≡ received publisher ++ (message ∷ []))

-- The slaves of each call of the UI.
abbrev pub displayed : List Event → List (List EthercatSlave)
displayed [] = []
displayed (display slaves ∷ events) = slaves ∷ displayed events
displayed (publish message ∷ events) = displayed events
displayed (working_counter wkcnt expected ∷ events) = displayed events

-- Messages that are the JSON of some of the displayed slaves, in the order of the displays; none
-- unless publishing is on.
pub data Gets (J : JsonLib) (publishing : Bool)
    : List (List EthercatSlave) → List Text → Type 0 where
  nothing : Gets J publishing [] []
  missed :
      (slaves : List EthercatSlave) {shown : List (List EthercatSlave)} {messages : List Text}
      → Gets J publishing shown messages
      → Gets J publishing (slaves ∷ shown) messages
  got :
      (slaves : List EthercatSlave) (now : ℕ) {shown : List (List EthercatSlave)}
      {messages : List Text}
      → publishing ≡ true
      → Gets J publishing shown messages
      → Gets J publishing (slaves ∷ shown) (convert_to_json J now slaves ∷ messages)

module _ (Z : Zmq) (u : Subscriber Z) where
  -- The message has the bytes of the string, without the zero behind them.
  pub publish_msg_whole :
      (json_string : Text) (publisher : Z.Socket)
      → publish_msg Z json_string publisher ≡ Z.send json_string publisher
  unfolding publish_msg
  publish_msg_whole json_string publisher = rw (memcpy-append json_string (0 ∷ [])) refl

  module _ (J : JsonLib) (publishing : Bool) where
    -- What the subscriber gets on top of what it has.
    abbrev GetsMore : List Event → Z.Socket → Z.Socket → Type 0
    GetsMore events publisher last =
        (messages : List Text) × (u.received last ≡ u.received publisher ++ messages)
        × Gets J publishing (displayed events) messages

    after_message :
        (slaves : List EthercatSlave) (now : ℕ) (events : List Event)
        (publisher sent last : Z.Socket)
        → publishing ≡ true
        → Z.send (convert_to_json J now slaves) publisher ≡ some sent
        → GetsMore events sent last
        → GetsMore (display slaves ∷ events) publisher last
    after_message slaves now events publisher sent last on h (messages, more, gets) =
        elim (u.received-send _ publisher sent h) [
          | inl same ↦ (messages, more ∙ ap (λ m. m ++ messages) same, Gets.missed slaves gets)
          | inr next ↦ (
            convert_to_json J now slaves ∷ messages,
            more
                ∙ ap (λ m. m ++ messages) next
                ∙ append_assoc (u.received publisher) (convert_to_json J now slaves ∷ []) messages,
            Gets.got slaves now on gets,
          )
        ]

    Reported-Gets :
        (events : List Event) (publisher last : Z.Socket)
        → Reported J publishing events
        → publish_events_on Z events publisher ≡ some last
        → GetsMore events publisher last
    unfolding publish_events_on
    Reported-Gets events publisher last Reported.nothing h = (
      [],
      ap u.received (some-injective _ _ (sym h)) ∙ sym (append-nil (u.received publisher)),
      Gets.nothing,
    )
    Reported-Gets _ publisher last (Reported.counted wkcnt expected {events} r) h =
        Reported-Gets events publisher last r h
    Reported-Gets _ publisher last (Reported.shown slaves {events} off r) h =
        let (messages, more, gets) = Reported-Gets events publisher last r h in
        (messages, more, Gets.missed slaves gets)
    Reported-Gets _ publisher last (Reported.shown_and_sent slaves now {events} on r) h =
        let message : Text = convert_to_json J now slaves in
        let (sent, one, others) = >>=-eq-some (publish_msg Z message publisher) _ h in
        after_message slaves now events publisher sent last on
          (sym (publish_msg_whole message publisher) ∙ one)
          (Reported-Gets events sent last r others)

  -- Whatever packets arrive, a subscriber of the port gets whole JSON messages of slaves that the UI
  -- displayed, each at most once and in the order of the displays; it gets none where publishing is
  -- off, and may miss some where it is on.
  pub subscriber-Gets :
      (J : JsonLib) (soem : Soem) (port : Text) (s s' : PacketSniffer J) (arrivals : List Arrival)
      (events : List Event) (publisher last : Z.Socket)
      → new_publisher Z port ≡ some publisher
      → sniff_loop J soem s arrivals ≡ some (s', events)
      → publish_events_on Z events publisher ≡ some last
      → Gets J s.zmq_publish_enabled (displayed events) (u.received last)
  unfolding new_publisher
  subscriber-Gets J soem port s s' arrivals events publisher last bound looped published =
      let (messages, more, gets) =
        Reported-Gets J s.zmq_publish_enabled events publisher last
          (sniff_loop-Reported J soem s s' arrivals events looped) published in
      subst (Gets J s.zmq_publish_enabled (displayed events))
        (sym (more ∙ ap (λ m. m ++ messages) (u.received-bind _ publisher bound))) gets
