-- ===== src/Publisher.antt =====
-- `ZMQPublisher` of src/zmq_publisher.cpp and include/zmq_publisher.h, over the calls of libzmq that
-- it makes, and the publishing of the callback's messages by src/packet_sniffer.cpp.
pub mod Subscriber
pub mod Master
use kddv.Base.{Option, none, some, ◌>>=◌, List, [], ◌∷◌, ◌++◌, length}
use kddv.Text.{Text, text}
use kddv.Memory.{memcpy}
use kddv.Sniffer.{Event, working_counter, display, publish}

-- A publishing socket of libzmq; `none` is a call that throws `zmq::error_t`.
pub record Zmq : Type 1 where
  pub Socket : Type 0
  -- As the constructor makes it, of type `ZMQ_PUB` on a new context.
  pub pub_socket : Socket
  pub bind : Text → Socket → Option Socket
  -- With the flag `dontwait`.
  pub send : Text → Socket → Option Socket
  -- Of the socket, and of the context that it belongs to.
  pub close : Socket → Socket
  pub shutdown_context : Socket → Socket
  pub close_context : Socket → Socket

module _ (Z : Zmq) where
  unfoldable pub new_publisher : Text → Option Z.Socket
  new_publisher port = Z.bind (text "tcp://*:" ++ port) Z.pub_socket

  -- The destructor.
  unfoldable pub delete_publisher : Z.Socket → Z.Socket
  delete_publisher publisher = Z.close_context (Z.shutdown_context (Z.close publisher))

  -- The bytes of the string, which `c_str()` ends with a zero, copied into a new message.
  unfoldable pub publish_msg : Text → Z.Socket → Option Z.Socket
  publish_msg json_string publisher = do
    message ← memcpy (length json_string) (json_string ++ (0 ∷ []))
    Z.send message publisher

  -- `publishMsg` for each message of the callback, in the order of its calls.
  unfoldable pub publish_events_on : List Event → Z.Socket → Option Z.Socket
  publish_events_on [] publisher = some publisher
  publish_events_on (publish message ∷ events) publisher = do
    sent ← publish_msg message publisher
    publish_events_on events sent
  publish_events_on (display slaves ∷ events) publisher = publish_events_on events publisher
  publish_events_on (working_counter wkcnt expected ∷ events) publisher =
      publish_events_on events publisher
