-- ===== src/Notifications/Messages.antt =====
-- How many messages an order's confirmation sends (apps/tasks/notifications.py).
use high_performance_e_comme.Common.{
  ℕ, zero, suc, ◌+◌, ◌≡◌, refl, ap, ◌∙◌, Option, none, some, List, [], ◌∷◌, ◌++◌, arith,
}
use high_performance_e_comme.Notifications.{
  to_send, sent, failed, Dispatch, Mail, Step, starts, ends, take_step, take_steps,
  send_order_confirmation, send_again, no_mail,
}

-- The time of the first call that returned.
abbrev pub first_return : List (Option ℕ) → Option ℕ
first_return [] = none
first_return (some now ∷ rs) = some now
first_return (none ∷ rs) = first_return rs

-- The messages of an order and its row, after a first call that returned or none.
abbrev pub Answers : Option ℕ → Mail → Type 0
Answers (some now) m =
    (m.row ≡ some (record { status = sent; sent_at = some now })) × (m.messages ≡ 1)
Answers none m = ((d : Dispatch) × (m.row ≡ some d) × (d.status ≡ failed)) × (m.messages ≡ 0)

send_again-sent :
    (rs : List (Option ℕ)) (now : ℕ)
    → let m : Mail = record {
      row = some (record { status = sent; sent_at = some now });
      running = 0;
      messages = 1;
    } in
      send_again rs m ≡ m
unfolding send_again send_order_confirmation
send_again-sent [] now = refl
send_again-sent (r ∷ rs) now = send_again-sent rs now

send_again-failed :
    (rs : List (Option ℕ))
    → Answers (first_return rs) (
        send_again rs (record {
          row = some (record { status = failed; sent_at = none });
          running = 0;
          messages = 0;
        }))
unfolding send_again send_order_confirmation
send_again-failed [] = ((record { status = failed; sent_at = none }, refl, refl), refl)
send_again-failed (none ∷ rs) = send_again-failed rs
send_again-failed (some now ∷ rs) = rw (send_again-sent rs now) (refl, refl)

-- Runs one after another, each of which the provider answers or not: one message is out if a call
-- returned, and the row has the time of the first that did; else none is out and the row is `failed`.
pub send_again-Answers :
    (r : Option ℕ) (rs : List (Option ℕ))
    → Answers (first_return (r ∷ rs)) (send_again (r ∷ rs) no_mail)
unfolding send_again send_order_confirmation
send_again-Answers none rs = send_again-failed rs
send_again-Answers (some now) rs = rw (send_again-sent rs now) (refl, refl)

abbrev pub times : ℕ → Step → List Step
times zero s = []
times (suc n) s = s ∷ times n s

abbrev waiting : ℕ → Mail
waiting k = record {
  row = some (record { status = to_send; sent_at = none });
  running = k;
  messages = 0;
}

take_steps-starts :
    (n k j : ℕ) (ss : List Step)
    → n + k ≡ j
    → take_steps (times n starts ++ ss) (waiting k) ≡ take_steps ss (waiting j)
unfolding take_steps take_step
take_steps-starts zero k j ss e = ap (λ i. take_steps ss (waiting i)) (omega arith)
take_steps-starts (suc n) k j ss e = take_steps-starts n (k + 1) j ss (omega arith)

take_steps-ends :
    (n now k : ℕ) (d : Dispatch)
    → (take_steps
        (times n (ends (some now)))
        (record { row = some d; running = n; messages = k })).messages
      ≡ k + n
unfolding take_steps take_step
take_steps-ends zero now k d = omega arith
take_steps-ends (suc n) now k d =
    take_steps-ends n now (k + 1) (record d { status = sent; sent_at = some now }) ∙ omega arith

-- Workers that all start before one of them is through send a message each.
pub take_steps-duplicates :
    (n now : ℕ) → (take_steps (times n starts ++ times n (ends (some now))) no_mail).messages ≡ n
unfolding take_steps take_step
take_steps-duplicates zero now = refl
take_steps-duplicates (suc n) now =
    ap (λ (m : Mail). m.messages)
      (take_steps-starts n 1 (suc n) (times (suc n) (ends (some now))) (omega arith))
    ∙ take_steps-ends (suc n) now 0 (record { status = to_send; sent_at = none })
    ∙ omega arith
