-- ===== src/Session/Inbox.antt =====
-- Inbox of include/crowdy/session/stores.hpp. The callback is the log `observed`, newest first. A
-- call is `none` where the code reads the back of an empty deque.
pub mod Fifo
use mathlib.Core.Logic.{ite}
use crowdy_cpp.Base.{
  ℕ, zero, suc, ◌+◌, ◌-◌, ◌≡◌, ◌≢◌, ◌≤◌, ◌<◌, ◌↔◌, inl, inr, refl, sym, ap, subst, ◌∙◌, Bool, true,
  false, ◌||◌, Option, none, some, List, [], ◌∷◌, ◌++◌, append_assoc, append-nil, All, length, take,
  drop, length-append, length-drop, drop-drop, ltb, if◌then◌else◌, Bool-cases, ltb→lt, ltb_false→le,
  arith,
}
use crowdy_cpp.Base.Int.{ℤ}
use crowdy_cpp.Core.Le.{Bytes}
use crowdy_cpp.Session.Keys.{ℤ_discrete}

pub record InboxMessage : Type 0 where
  pub channel_id : ℤ
  pub sender_uuid : Bytes
  pub payload : Bytes
  pub server_epoch_ms : ℤ
  pub received_at_ms : ℤ

-- `messages` is oldest first, `channels` has no order.
pub record Inbox : Type 0 where
  pub max : ℕ
  pub messages : List InboxMessage
  pub channels : List ℤ
  pub observed : List InboxMessage

pub inbox : ℕ → Inbox
inbox max = record { max = max; messages = []; channels = []; observed = [] }

-- `back()`
abbrev pub back : List InboxMessage → Option InboxMessage
back [] = none
back (m ∷ []) = some m
back (m ∷ n ∷ ms) = back (n ∷ ms)

-- `channels_.insert(id)`
abbrev pub has_channel : ℤ → List ℤ → Bool
has_channel id [] = false
has_channel id (c ∷ cs) = ite (ℤ_discrete c id) true (has_channel id cs)

abbrev pub insert_channel : ℤ → List ℤ → List ℤ
insert_channel id cs = if has_channel id cs then cs else id ∷ cs

-- What `push` does once the message is in the deque.
abbrev pub announced : Inbox → List InboxMessage → Option InboxMessage → Option Inbox
announced ib ms none = none
announced ib ms (some m) = some (record ib {
  messages = ms;
  channels = insert_channel m.channel_id ib.channels;
  observed = m ∷ ib.observed;
})

pub push : Inbox → InboxMessage → Option Inbox
push ib m =
    let ms = ib.messages ++ m ∷ [] in
    let kept = if ltb ib.max (length ms) then drop 1 ms else ms in announced ib kept (back kept)

-- The loop of `drain`: what it returns and the messages it leaves.
abbrev pub drain_loop : ℕ → List InboxMessage → List InboxMessage × List InboxMessage
drain_loop zero ms = ([], ms)
drain_loop (suc n) [] = ([], [])
drain_loop (suc n) (m ∷ ms) = let (out, left) = drain_loop n ms in (m ∷ out, left)

pub drain : Inbox → ℕ → List InboxMessage × Inbox
drain ib max = let (out, left) = drain_loop max ib.messages in (out, record ib { messages = left })

-- `messages(channelId)`
abbrev pub on_channel : Option ℤ → InboxMessage → Bool
on_channel none m = true
on_channel (some id) m = ite (ℤ_discrete m.channel_id id) true false

abbrev pub select : Option ℤ → List InboxMessage → List InboxMessage
select channel_id [] = []
select channel_id (m ∷ ms) =
    let rest = select channel_id ms in if on_channel channel_id m then m ∷ rest else rest

pub messages_of : Inbox → Option ℤ → List InboxMessage
messages_of ib channel_id = select channel_id ib.messages

pub clear : Inbox → Inbox
clear ib = record ib { messages = [] }
