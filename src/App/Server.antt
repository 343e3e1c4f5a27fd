-- ===== src/App/Server.antt =====
-- The server's half of `handle_peer`, together with the hook callbacks that feed it: the hooks
-- offer messages to the channel, and the loop takes them off it and forwards or discards them.
pub mod Grab
pub mod Order
pub mod Peers
pub mod Merge
use dshare.Base.{
  ℕ, Bool, true, false, ◌&&◌, Option, none, some, List, [], ◌∷◌, ◌++◌, ℤ, Result, ok, err,
  if◌then◌else◌, ◌>>=◌,
}
use dshare.Protocol.{Hello, Message, ProtocolError}
use dshare.App.Handshake.{Reply, PeerError, no_backend, hello_exchange}
use dshare.Input.Windows.Hooks.{
  HookState, Outcome, WindowMessage, VirtualKey, is_grabbed, mouse_hook_proc, kbd_hook_proc,
}

-- What `select!` has next: a captured message, with the flag as it is loaded then and the outcome
-- that `sink.send` has if it is called, or the end of the channel; a frame from the peer, or its end.
pub data ServerEvent (E : Type 0) : Type 0 where
  captured :
      Message → (grabbed : Bool) → (sent : Result (Unit {0}) (ProtocolError E)) → ServerEvent E
  capture_ended : ServerEvent E
  inbound : Result Message (ProtocolError E) → ServerEvent E
  peer_closed : ServerEvent E

module _ {E : Type 0} where
  -- The messages given to `sink.send`, in order, until an event breaks the loop.
  unfoldable pub capture_loop : List (ServerEvent E) → List Message
  capture_loop [] = []
  capture_loop (captured msg true (ok _) ∷ events) = msg ∷ capture_loop events
  capture_loop (captured msg true (err e) ∷ events) = msg ∷ []
  capture_loop (captured msg false sent ∷ events) = capture_loop events
  capture_loop (capture_ended ∷ events) = []
  capture_loop (inbound (ok _) ∷ events) = capture_loop events
  capture_loop (inbound (err e) ∷ events) = []
  capture_loop (peer_closed ∷ events) = []

  -- `handle_peer` of a server: the messages given to `send`, in order, and the error, if there is
  -- one. `capture` says whether the platform has a capture backend.
  unfoldable pub server_peer :
      Hello
      → (sent : Result (Unit {0}) (ProtocolError E)) → Reply E
      → (ack : Result (Unit {0}) (ProtocolError E)) → (capture : Bool) → List (ServerEvent E)
      → List Message × Result (Unit {0}) (PeerError E)
  unfolding capture_loop
  server_peer own sent reply ack capture events =
      let (told, end) = hello_exchange own sent reply ack in
      elim end [
        | err e ↦ (told, err e)
        | ok _ ↦ if capture then (told ++ capture_loop events, ok tt) else (told, err no_backend)
      ]

-- The server with a connection that takes every message: the hook thread's state, the channel's
-- contents and what has been sent to the peer. The grab flag is one, shared by both threads.
pub record System (Sender : Type 0) : Type 0 where
  pub hook : HookState Sender
  pub queue : List Message
  pub sent : List Message

-- A key or mouse event arrives (`kept`: the channel takes the message, if one is offered), or the
-- loop takes the next message off the channel.
pub data Action : Type 0 where
  key : WindowMessage → (vk_code : ℕ) → (VirtualKey → ℕ) → (kept : Bool) → Action
  mouse : WindowMessage → (cur_pos : ℤ × ℤ) → (mouse_data : ℕ) → (kept : Bool) → Action
  forward : Action

module _ {Sender : Type 0} where
  -- `try_send`, which takes the message or drops it.
  unfoldable pub enqueue : Bool → Option (Sender × Message) → List Message → List Message
  enqueue true (some (tx, msg)) queue = queue ++ (msg ∷ [])
  enqueue _ _ queue = queue

  unfoldable pub hooked : Bool → Outcome Sender → System Sender → System Sender
  unfolding enqueue
  hooked kept out s = record s { hook = out.state; queue = enqueue kept out.offered s.queue }

  -- `if grabbed.load(…) { sink.send(msg) }`
  unfoldable pub forward_next : List Message → System Sender → System Sender
  forward_next [] s = s
  forward_next (msg ∷ rest) s = record s {
    queue = rest;
    sent = if is_grabbed s.hook then s.sent ++ (msg ∷ []) else s.sent;
  }

  -- `none` is a panic in the hook thread.
  unfoldable pub step : Bool → Action → System Sender → Option (System Sender)
  unfolding hooked forward_next
  step checks (key w vk_code async_key_state kept) s =
      some (hooked kept (kbd_hook_proc true w vk_code async_key_state s.hook) s)
  step checks (mouse w cur_pos mouse_data kept) s = do
    out ← mouse_hook_proc checks true w cur_pos mouse_data s.hook
    some (hooked kept out s)
  step checks forward s = some (forward_next s.queue s)

  unfoldable pub run : Bool → List Action → System Sender → Option (System Sender)
  unfolding step
  run checks [] s = some s
  run checks (a ∷ actions) s = step checks a s >>= λ t. run checks actions t
