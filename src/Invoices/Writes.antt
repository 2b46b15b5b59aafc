-- ===== src/Invoices/Writes.antt =====
-- What the invoice task writes of an order (apps/tasks/invoicing.py).
use Prim.Native.String.{String}
use high_performance_e_comme.Common.{
  ℕ, zero, suc, ◌+◌, ◌≤◌, ◌≡◌, refl, inl, inr, none, some, List, [], ◌∷◌, ◌++◌, arith, ap, ◌∙◌,
  Option-cases, ◌==◌, if◌then◌else◌,
}
use high_performance_e_comme.Invoices.{
  Invoiced, Rendering, Step, starts, renders, other_write, take_read, start_invoice, take_step,
  take_steps,
}

-- The order's row as a new task finds it: no invoice, and no task that renders.
abbrev pub without_invoice : ℕ → Rendering
without_invoice version = record {
  row = some (record { version = version; invoice_url = none });
  read = [];
  writes = 0;
}

-- An address was written once, and is there; or not yet, and none is.
abbrev IsWritten : String → Rendering → Type 0
IsWritten url s =
    (r : Invoiced) × (s.row ≡ some r)
    × (r.invoice_url ≡ (if s.writes == 0 then none else some url))
    × (s.writes ≤ 1)

take_step-IsWritten :
    (url : String) (x : Step) (s : Rendering) → IsWritten url s → IsWritten url (take_step url x s)
unfolding take_step
take_step-IsWritten url (starts worker) s (r, e, h, few) =
    elim (Option-cases (start_invoice s.row)) [
      | inl stops ↦ rw stops (r, e, h, few)
      | inr (v, goes) ↦ rw goes (r, e, h, few)
    ]
take_step-IsWritten url (renders worker) s (r, e, h, few) =
    elim (Option-cases (take_read worker s.read)) [
      | inl stranger ↦ rw stranger (r, e, h, few)
      | inr (v, knows) ↦ elim (Option-cases r.invoice_url) [
        | inl missing ↦ (
          record { version = v + 1; invoice_url = some url },
          ground arith,
          ground arith,
          ground arith,
        )
        | inr (old, there) ↦ (r, ground arith, ground arith, ground arith)
      ]
    ]
take_step-IsWritten url other_write s (r, e, h, few) =
    (record r { version = r.version + 1 }, rw e refl, h, few)

take_steps-IsWritten :
    (url : String) (xs : List Step) (s : Rendering)
    → IsWritten url s
    → IsWritten url (take_steps url xs s)
unfolding take_steps
take_steps-IsWritten url [] s h = h
take_steps-IsWritten url (x ∷ xs) s h =
    take_steps-IsWritten url xs (take_step url x s) (take_step-IsWritten url x s h)

-- Other calls write the order so many times.
abbrev pub other_writes : ℕ → List Step
other_writes zero = []
other_writes (suc n) = other_write ∷ other_writes n

take_steps-other_writes :
    (url : String) (n v : ℕ) (read : List (ℕ × ℕ)) (xs : List Step)
    → take_steps url (other_writes n ++ xs) (record {
      row = some (record { version = v; invoice_url = none });
      read = read;
      writes = 0;
    })
      ≡ take_steps url xs (record {
        row = some (record { version = v + n; invoice_url = none });
        read = read;
        writes = 0;
      })
unfolding take_steps take_step
take_steps-other_writes url zero v read xs =
    ap
      (λ k. take_steps url xs (record {
        row = some (record { version = k; invoice_url = none });
        read = read;
        writes = 0;
      }))
      (omega arith)
take_steps-other_writes url (suc n) v read xs =
    take_steps-other_writes url n (v + 1) read xs
    ∙ ap
        (λ k. take_steps url xs (record {
          row = some (record { version = k; invoice_url = none });
          read = read;
          writes = 0;
        }))
        (omega arith)

-- Whatever writes other calls make while a task renders, the task sets the version to one more than
-- the version that it read: the order's version does not count those writes, though each of them
-- counted it up.
pub take_steps-loses_versions :
    (url : String) (worker n version : ℕ)
    → (take_steps url
        (starts worker ∷ other_writes n ++ renders worker ∷ [])
        (without_invoice version)).row
      ≡ some (record { version = version + 1; invoice_url = some url })
unfolding take_steps take_step
take_steps-loses_versions url worker n version =
    ap (λ (s : Rendering). s.row)
      (take_steps-other_writes url n version ((worker, version) ∷ []) (renders worker ∷ []))
    ∙ ground arith
