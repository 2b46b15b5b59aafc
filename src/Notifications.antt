-- ===== src/Notifications.antt =====
-- apps/tasks/notifications.py, send_order_confirmation: the confirmation of one order. The row of an
-- order is its own, so orders are modelled one at a time. A message is out when the provider's call
-- (in the code, a pause that stands for it) returns.
pub mod Messages
use high_performance_e_comme.Common.{
  ℕ, zero, suc, ◌+◌, Bool, true, false, Option, none, some, List, [], ◌∷◌,
}

-- `OrderEmailDispatch`'s status. `to_send` is PENDING.
pub data EmailStatus : Type 0 where
  to_send sent failed : EmailStatus

-- `OrderEmailDispatch`: `sent_at` is null until a message is out.
pub record Dispatch : Type 0 where
  pub status : EmailStatus
  pub sent_at : Option ℕ

-- `get_or_create(order_id=order_id)`
abbrev pub found_or_new : Option Dispatch → Dispatch
found_or_new none = record { status = to_send; sent_at = none }
found_or_new (some d) = d

-- What the task does before the provider's call: whether it goes on, and the row.
abbrev pub mark_pending : EmailStatus → Dispatch → Bool × Dispatch
mark_pending sent d = (false, d)
mark_pending to_send d = (true, d)
mark_pending failed d = (true, record d { status = to_send })

pub begin_task : Option Dispatch → Bool × Dispatch
begin_task row = mark_pending (found_or_new row).status (found_or_new row)

-- What it does after the call: `some now` for a call that returned, `none` for one that raised. The
-- saves write the columns that changed, and no others.
pub end_task : Option ℕ → Dispatch → Dispatch
end_task (some now) d = record d { status = sent; sent_at = some now }
end_task none d = record d { status = failed }

-- The row, the workers that are at the provider's call, and the messages that are out.
pub record Mail : Type 0 where
  pub row : Option Dispatch
  pub running : ℕ
  pub messages : ℕ

-- A worker starts the task, or is through with the provider's call.
pub data Step : Type 0 where
  starts : Step
  ends : Option ℕ → Step

abbrev finish_start : Mail → Bool × Dispatch → Mail
finish_start m (true, d) = record m { row = some d; running = m.running + 1 }
finish_start m (false, d) = record m { row = some d }

abbrev sent_by : Option ℕ → ℕ
sent_by none = 0
sent_by (some now) = 1

abbrev finish_end : Option ℕ → Mail → ℕ → Option Dispatch → Mail
finish_end result m (suc n) (some d) = record {
  row = some (end_task result d);
  running = n;
  messages = m.messages + sent_by result;
}
finish_end result m _ _ = m

pub take_step : Step → Mail → Mail
unfolding begin_task end_task
take_step starts m = finish_start m (begin_task m.row)
take_step (ends result) m = finish_end result m m.running m.row

pub take_steps : List Step → Mail → Mail
unfolding take_step
take_steps [] m = m
take_steps (s ∷ ss) m = take_steps ss (take_step s m)

-- A run of the task with no other beside it.
pub send_order_confirmation : Option ℕ → Mail → Mail
unfolding take_step
send_order_confirmation result m = take_step (ends result) (take_step starts m)

-- The task and its retries, one after another.
pub send_again : List (Option ℕ) → Mail → Mail
unfolding send_order_confirmation
send_again [] m = m
send_again (r ∷ rs) m = send_again rs (send_order_confirmation r m)

abbrev pub no_mail : Mail
no_mail = record { row = none; running = 0; messages = 0 }
