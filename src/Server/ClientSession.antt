-- ===== src/Server/ClientSession.antt =====
-- include/seed/ClientSession.h and src/ClientSession.cpp: a client's connection. What the calls of
-- `recv` and `send` return is an argument.
use seed_origin.Base.{
  ℕ, Bool, true, false, not, List, [], ◌∷◌, Option, none, some, String, ◌==◌, if◌then◌else◌, length,
  Result, ok, err,
}
use seed_origin.Net.Command.{NetworkCommand}
use seed_origin.Net.Reassembly.{Accumulator, Appended, initial}
use seed_origin.Net.Frame.Streaming.{append_frames}
use seed_origin.Net.Outbound.{OutboundFrameQueue, enqueue, consume_front}

pub data ReceiveStatus : Type 0 where
  commands : ReceiveStatus
  nothing_received : ReceiveStatus
  receive_closed : ReceiveStatus
  receive_failed : ReceiveStatus

pub data SendStatus : Type 0 where
  sent : SendStatus
  nothing_sent : SendStatus
  send_closed : SendStatus
  send_failed : SendStatus

-- What `recv` and `send` return: a number of bytes, for `recv` with the bytes, or an error, which is to
-- try again (`EAGAIN`, `EWOULDBLOCK`, `EINTR`), that the peer is gone (`ECONNRESET`, `EPIPE`), or
-- another one.
pub data SocketResult (T : Type 0) : Type 0 where
  progress : T → SocketResult T
  try_again : SocketResult T
  peer_gone : SocketResult T
  broken : SocketResult T

-- The socket is there as long as the session is open.
pub record ClientSession : Type 0 where
  pub is_open : Bool
  pub close_after_flush : Bool
  pub accumulator : Accumulator
  pub outbound_frames : OutboundFrameQueue

abbrev pub new_session : ClientSession
new_session = record {
  is_open = true;
  close_after_flush = false;
  accumulator = initial;
  outbound_frames = [];
}

unfoldable pub close : ClientSession → ClientSession
close s = if s.is_open then record s { is_open = false; close_after_flush = false } else s

abbrev pub request_close_after_flush : ClientSession → ClientSession
request_close_after_flush s = record s { close_after_flush = true }

-- A call of `receive`: what it leaves, what it returns, the commands of its out-parameter, and the text
-- that it writes to `error`, if it writes one.
pub record Read : Type 0 where
  pub after : ClientSession
  pub status : ReceiveStatus
  pub read_commands : List NetworkCommand
  pub error : Option String

abbrev read_nothing : ClientSession → ReceiveStatus → Option String → Read
read_nothing s status e = record { after = s; status = status; read_commands = []; error = e }

abbrev status_of : List NetworkCommand → ReceiveStatus
status_of [] = nothing_received
status_of (c ∷ cs) = commands

abbrev read_appended : ClientSession → Appended NetworkCommand → Result (Unit {0}) → Read
read_appended s a (ok u) = record {
  after = record s { accumulator = a.after };
  status = status_of a.items;
  read_commands = a.items;
  error = none;
}
read_appended s a (err e) = record {
  after = close (record s { accumulator = a.after });
  status = receive_failed;
  read_commands = a.items;
  error = some e;
}

-- No bytes are the end of the stream.
abbrev receive_open : ClientSession → SocketResult (List ℕ) → Read
receive_open s (progress []) = read_nothing (close s) receive_closed none
receive_open s (progress (b ∷ bs)) =
    let a = append_frames s.accumulator (b ∷ bs) in read_appended s a a.outcome
receive_open s try_again = read_nothing s nothing_received none
receive_open s peer_gone = read_nothing (close s) receive_closed none
receive_open s broken = read_nothing (close s) receive_failed (some "client socket read failed")

unfoldable pub receive : ClientSession → SocketResult (List ℕ) → Read
receive s r =
    let open_read = receive_open s r in
    if s.is_open then open_read else read_nothing s receive_closed (some "client session is closed")

abbrev with_frames : ClientSession → Result OutboundFrameQueue → ClientSession × Result (Unit {0})
with_frames s (ok frames) = (record s { outbound_frames = frames }, ok tt)
with_frames s (err e) = (s, err e)

unfoldable pub enqueue_frame : ClientSession → List ℕ → ClientSession × Result (Unit {0})
enqueue_frame s frame =
    if s.is_open
    then with_frames s (enqueue s.outbound_frames frame)
    else (s, err "client session is closed")

-- A call of `flushOutbound`: the session, the status, and the error if it has failed.
abbrev pub Flushed : Type 0
Flushed = ClientSession × SendStatus × Option String

abbrev sent_or : Bool → SendStatus → SendStatus
sent_or true status = sent
sent_or false status = status

-- There is no frame: the end of the loop.
abbrev flushed_all : ClientSession → Bool → Flushed
flushed_all s progressed =
    if s.close_after_flush
    then (close s, sent_or progressed send_closed, none)
    else (s, sent_or progressed nothing_sent, none)

-- A frame, or a part of it, has been sent; only a session that is to be closed goes on.
abbrev consumed : ClientSession → OutboundFrameQueue × Bool → (ClientSession → Flushed) → Flushed
consumed s (frames, false) next = (
  close (record s { outbound_frames = frames }),
  send_failed,
  some "outbound frame progress is invalid",
)
consumed s (frames, true) next =
    let left = record s { outbound_frames = frames } in
    if s.close_after_flush then next left else (left, sent, none)

abbrev flush_round :
    ClientSession → Bool → OutboundFrameQueue → SocketResult ℕ → (ClientSession → Flushed) → Flushed
flush_round s progressed frames (progress n) next =
    if n == 0
    then (s, sent_or progressed nothing_sent, none)
    else consumed s (consume_front frames n) next
flush_round s progressed frames try_again next = (s, sent_or progressed nothing_sent, none)
flush_round s progressed frames peer_gone next = (close s, send_closed, none)
flush_round s progressed frames broken next =
    (close s, send_failed, some "client socket write failed")

-- The loop, over what the calls of `send` return; where the list ends, the socket takes no more. The
-- flag tells whether a round before has sent something.
unfoldable pub flush_from : ClientSession → Bool → List (SocketResult ℕ) → Flushed
flush_from s progressed [] =
    if not s.is_open
    then (s, send_closed, some "client session is closed")
    else if length s.outbound_frames == 0
    then flushed_all s progressed
    else (s, sent_or progressed nothing_sent, none)
flush_from s progressed (r ∷ rs) =
    let next = λ (left : ClientSession). flush_from left true rs in
    let round = flush_round s progressed s.outbound_frames r next in
    if not s.is_open
    then (s, send_closed, some "client session is closed")
    else if length s.outbound_frames == 0
    then flushed_all s progressed
    else round

unfoldable pub flush_outbound : ClientSession → List (SocketResult ℕ) → Flushed
flush_outbound s rs = flush_from s false rs
