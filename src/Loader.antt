-- ===== src/Loader.antt =====
-- The client driver that loads the firmware of the sensor hub, src/intel-ish-hid-linux-6.5/ishtp-fw-loader.c: its
-- state, the messages that come (process_recv) and the exchange of a command for its response
-- (loader_cl_send). `ishtp_cl_send`, the wait and what the loader in the hub answers are
-- outcomes, any function of the messages so far.
pub mod Xfer
pub mod Load
pub mod Exchange
pub mod Receive
pub mod Image
pub mod Wire
pub mod Steady
pub mod Retries
use ubuntu_elkhart_lake_pse.Prelude.{
  ℕ, zero, suc, ◌+◌, ◌-◌, ◌*◌, ◌/◌, ◌%◌, Bool, true, false, not, ◌&&◌, ◌||◌, List, [], ◌∷◌, ◌++◌,
  Option, none, some, ltb, ◌==◌, if◌then◌else◌, get_or, length, memcpy,
}
use ubuntu_elkhart_lake_pse.Ishtp.Types.{
  Errno, Code, ok, err, einval, ebadmsg, emsgsize, eproto, eio, etimedout, Rb,
}

-- LOADER_CMD_XFER_QUERY, LOADER_CMD_XFER_FRAGMENT and LOADER_CMD_START
abbrev pub loader_cmd_xfer_query : ℕ
loader_cmd_xfer_query = 0

abbrev pub loader_cmd_xfer_fragment : ℕ
loader_cmd_xfer_fragment = 1

abbrev pub loader_cmd_start : ℕ
loader_cmd_start = 2

-- Where `response.data` points: nowhere, to the buffer of a function that still runs, with what it
-- holds, or to the stack of one that has returned.
pub data Target : Type 0 where
  null gone : Target
  buffer : List ℕ → Target

-- A message with what the DMA buffer holds while it is sent.
pub record Sent : Type 0 where
  pub message : List ℕ
  pub dma_mem : List ℕ

-- `struct response_info` and `struct ishtp_cl_data`. `sent` are the messages that were given to
-- `ishtp_cl_send`, `recycled` the buffers that were given back, `resets` the calls of `ish_hw_reset`;
-- `late` are messages that have come since the last exchange.
pub record Loader : Type 0 where
  pub target : Target
  pub max_size : ℕ
  pub size : ℕ
  pub error : Code
  pub received : Bool
  pub flag_retry : Bool
  pub retry_count : ℕ
  pub sent : List Sent
  pub recycled : List Rb
  pub late : List Rb
  pub resets : ℕ

-- What becomes of an exchange: the result of `ishtp_cl_send`, the messages that come until the wait ends
-- and its result is looked at, and those that come before the next exchange.
pub record Round : Type 0 where
  pub sending : Code
  pub during : List Rb
  pub late : List Rb

-- The hub: a round for each list of messages.
abbrev pub Shim : Type 0
Shim = List Sent → Round

-- How a function of the driver ends: with its result, by a write to a stack frame that is gone, or not at
-- all.
pub data Outcome (A : Type 0) : Type 0 where
  done : A → Loader → Outcome A
  dead_write : Outcome A
  endless : Outcome A

infixl 5 ◌>>=◌
abbrev pub ◌>>=◌ : {A B : Type 0} → Outcome A → (A → Loader → Outcome B) → Outcome B
done a s >>= f = f a s
dead_write >>= f = dead_write
endless >>= f = endless

-- `ishtp_cl_io_rb_recycle` gets the buffer.
abbrev pub recycle : Rb → Loader → Loader
recycle rb s = record s { recycled = s.recycled ++ rb ∷ [] }

-- The bits of the command byte.
abbrev pub command_of : List ℕ → ℕ
command_of msg = get_or msg 0 0 % 128

abbrev pub is_response : List ℕ → Bool
is_response msg = get_or msg 0 0 / 128 % 2 == 1

abbrev pub is_command : ℕ → Bool
is_command c =
    c == loader_cmd_xfer_query || (c == loader_cmd_xfer_fragment || c == loader_cmd_start)

abbrev pub refused : Errno → Rb → Loader → Outcome (Unit {0})
refused e rb s = done tt (recycle rb (record s { error = err e }))

-- The message is copied to the caller's buffer.
unfoldable pub copy_response : List ℕ → Rb → Loader → Target → Outcome (Unit {0})
copy_response msg rb s null = refused einval rb s
copy_response msg rb s gone = dead_write
copy_response msg rb s (buffer b) = done tt (
    recycle rb
      (record s { size = rb.buf_idx; target = buffer (memcpy b msg rb.buf_idx); received = true }))

abbrev pub is_null : Target → Bool
is_null null = true
is_null _ = false

-- The checks of the message, and its copy.
unfoldable pub parse : List ℕ → Rb → Loader → Outcome (Unit {0})
unfolding copy_response
parse msg rb s =
    if ltb rb.buf_idx 4
    then refused emsgsize rb s
    else if not (is_command (command_of msg))
    then refused eproto rb s
    else if ltb s.max_size rb.buf_idx
    then refused emsgsize rb s
    else if not (is_response msg)
    then refused eio rb s
    else if not (get_or msg 3 0 == 0)
    then refused eio rb s
    else copy_response msg rb s s.target

unfoldable pub process_recv : Rb → Loader → Outcome (Unit {0})
unfolding parse
process_recv rb s =
    if is_null s.target
    then refused einval rb s
    else if s.received
    then refused einval rb s
    else elim rb.content [ none ↦ refused ebadmsg rb s | some msg ↦ parse msg rb s ]

-- `loader_cl_event_cb` on the messages that are there.
unfoldable pub loader_cl_event_cb : List Rb → Loader → Outcome (Unit {0})
unfolding process_recv
loader_cl_event_cb [] s = done tt s
loader_cl_event_cb (rb ∷ rbs) s = process_recv rb s >>= λ _ t. loader_cl_event_cb rbs t

-- The end of the exchange, after the wait.
unfoldable pub answer : Loader → Code
answer s =
    if not s.received then err etimedout else elim s.error [ err e ↦ err e | ok n ↦ ok s.size ]

abbrev pub begun : Sent → List ℕ → ℕ → Loader → Loader
begun out_msg in_msg in_size s = record s {
  target = buffer in_msg;
  max_size = in_size;
  error = ok 0;
  received = false;
  sent = s.sent ++ out_msg ∷ [];
  late = [];
}

abbrev pub awaited : Round → Loader → Code → Outcome Code
awaited r s (err e) = done (err e) (record s { late = r.late })
awaited r s (ok n) =
    loader_cl_event_cb r.during s >>= λ _ t. done (answer t) (record t { late = r.late })

-- The messages that came since the last exchange were handled before.
unfoldable pub loader_cl_send : Shim → Sent → List ℕ → ℕ → Loader → Outcome Code
unfolding loader_cl_event_cb answer
loader_cl_send shim out_msg in_msg in_size s = loader_cl_event_cb s.late s >>= λ _ t.
    let u = begun out_msg in_msg in_size t in awaited (shim u.sent) u (shim u.sent).sending

-- The function whose buffer `response.data` points to returns.
abbrev pub frame_ends : Loader → Loader
frame_ends s = record s { target = elim s.target [ null ↦ null | gone ↦ gone | buffer b ↦ gone ] }
