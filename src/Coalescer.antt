-- ===== src/Coalescer.antt =====
-- src/flash-edit-coalescer.ts: the edits of a message that is shown while the agent thinks. A slot object
-- is a number into `slots`. The worker of a slot, `drainSlot`, is split at its `await` of editMessage:
-- while the promise in `inFlight` is open, `in_flight` holds its snapshot. The channel has editMessage
-- and deleteMessage, and the await of deleteMessage is part of the step; log lines are left out.
pub mod Latest
pub mod Balance
pub mod Single
pub mod Tests
use nanoclaw_github_copilot.Base.{
  ℕ, suc, String, Bool, true, false, Option, none, some, List, [], ◌∷◌, ◌==◌, if◌then◌else◌, str_eq,
  Table, lookup, insert, discard,
}

pub record Slot : Type 0 where
  pub msg_id : String
  pub latest : String
  pub opts : Option String
  pub in_flight : Option String

-- What the worker asked of the channel, and the promises of editMessage that came to their end.
pub data Call : Type 0 where
  edit_message : (slot : ℕ) (msg_id text : String) (opts : Option String) → Call
  delete_message : String → Call
  on_orphan : Call
  edit_ended : (slot : ℕ) → Call

pub record Coalescer : Type 0 where
  pub slots : ℕ → Slot
  pub queue : Table ℕ
  pub next : ℕ
  pub calls : List Call

-- How an editMessage ends: on the message itself, as a new message of that id, or by an error.
pub data Outcome : Type 0 where
  edited : Outcome
  fell_back : String → Outcome
  failed : Outcome

abbrev pub set_slot : ℕ → Slot → Coalescer → Coalescer
set_slot n s c = record c { slots = λ m. if n == m then s else c.slots m }

-- A round of the worker's loop up to its `await`.
unfoldable pub send_edit : ℕ → Slot → Coalescer → Coalescer
send_edit n s c =
    set_slot n (record s { in_flight = some s.latest })
      (record c { calls = edit_message n s.msg_id s.latest s.opts ∷ c.calls })

abbrev pub kick_off : ℕ → Slot → Option String → Coalescer → Coalescer
kick_off n s none c = send_edit n s c
kick_off n s (some _) c = set_slot n s c

-- `enqueue` on the slot that the map holds.
unfoldable pub overwrite : String → Option String → ℕ → Coalescer → Coalescer
unfolding send_edit
overwrite text opts n c =
    kick_off n (record (c.slots n) { latest = text; opts = opts }) (c.slots n).in_flight c

unfoldable pub open_slot : String → String → Option String → Coalescer → Coalescer
unfolding send_edit
open_slot id text opts c =
    send_edit c.next (record { msg_id = id; latest = text; opts = opts; in_flight = none })
      (record c { queue = insert id c.next c.queue; next = suc c.next })

abbrev pub enqueue_at : String → String → Option String → Option ℕ → Coalescer → Coalescer
enqueue_at id text opts none c = open_slot id text opts c
enqueue_at id text opts (some n) c = overwrite text opts n c

-- `enqueue`
unfoldable pub enqueue : String → String → Option String → Coalescer → Coalescer
unfolding overwrite open_slot
enqueue id text opts c = enqueue_at id text opts (lookup id c.queue) c

abbrev pub idle : Slot → Slot
idle s = record s { in_flight = none }

-- The end of a round: done if no newer text arrived.
unfoldable pub next_round : ℕ → Slot → String → Coalescer → Coalescer
unfolding send_edit
next_round n s snapshot c =
    if str_eq s.latest snapshot then set_slot n (idle s) c else send_edit n s c

-- What follows the `await` of the slot's worker.
unfoldable pub settle_edit : ℕ → Slot → String → Outcome → Coalescer → Coalescer
unfolding next_round discard
settle_edit n s snapshot edited c = next_round n s snapshot c
settle_edit n s snapshot failed c = next_round n s snapshot c
settle_edit n s snapshot (fell_back new_id) c =
    if str_eq new_id s.msg_id
    then next_round n s snapshot c
    else set_slot n (idle s) (record c {
      queue = discard s.msg_id c.queue;
      calls = on_orphan ∷ delete_message new_id ∷ c.calls;
    })

abbrev pub settle_at : ℕ → Slot → Option String → Outcome → Coalescer → Coalescer
settle_at n s none outcome c = c
settle_at n s (some snapshot) outcome c =
    settle_edit n s snapshot outcome (record c { calls = edit_ended n ∷ c.calls })

unfoldable pub settle : ℕ → Outcome → Coalescer → Coalescer
unfolding settle_edit
settle n outcome c = settle_at n (c.slots n) (c.slots n).in_flight outcome c

-- The end of `drain`, after its `await`.
unfoldable pub drop_slot : String → Coalescer → Coalescer
unfolding discard
drop_slot id c = record c { queue = discard id c.queue }

unfoldable pub clear : Coalescer → Coalescer
clear c = record c { queue = [] }

pub data Event : Type 0 where
  enqueues : (msg_id text : String) (opts : Option String) → Event
  settles : (slot : ℕ) → Outcome → Event
  drains : (msg_id : String) → Event
  clears : Event

unfoldable pub step : Event → Coalescer → Coalescer
unfolding enqueue settle drop_slot clear
step (enqueues id text opts) c = enqueue id text opts c
step (settles n outcome) c = settle n outcome c
step (drains id) c = drop_slot id c
step clears c = clear c

unfoldable pub run : List Event → Coalescer → Coalescer
unfolding step
run [] c = c
run (e ∷ es) c = run es (step e c)

unfoldable pub init : Coalescer
init = record {
  slots = λ _. record { msg_id = ""; latest = ""; opts = none; in_flight = none };
  queue = [];
  next = 0;
  calls = [];
}
