-- ===== src/Invoices.antt =====
-- apps/tasks/invoicing.py: the invoice of one order. The task reads the order, renders, and writes the
-- address of the invoice; other calls write the order while it renders.
pub mod Writes
use Prim.Native.String.{String}
use high_performance_e_comme.Common.{
  ℕ, zero, suc, ◌+◌, Bool, true, false, Option, none, some, List, [], ◌∷◌, ◌==◌, if◌then◌else◌,
}

-- What the task reads and writes of the order's row. An address that is empty reads as none.
pub record Invoiced : Type 0 where
  pub version : ℕ
  pub invoice_url : Option String

-- The row, the version that each running task has read, and the number of addresses written.
pub record Rendering : Type 0 where
  pub row : Option Invoiced
  pub read : List (ℕ × ℕ)
  pub writes : ℕ

-- A worker starts the task or is done with rendering, or another call writes the order and counts its
-- version up. Workers are numbers.
pub data Step : Type 0 where
  starts renders : ℕ → Step
  other_write : Step

-- The checks before the rendering: the version that was read, if the task goes on.
pub start_invoice : Option Invoiced → Option ℕ
start_invoice none = none
start_invoice (some r) = elim r.invoice_url [ none ↦ some r.version | some _ ↦ none ]

-- The update with `invoice_url__isnull=True` in its WHERE clause: the row, and the number of rows that
-- it matched. An empty URL in the column stands for none, as in the test at the start of the task.
pub write_url : String → ℕ → Option Invoiced → Option Invoiced × ℕ
write_url url version none = (none, 0)
write_url url version (some r) = elim r.invoice_url [
  | none ↦ (some (record { version = version + 1; invoice_url = some url }), 1)
  | some _ ↦ (some r, 0)
]

abbrev bump : Option Invoiced → Option Invoiced
bump none = none
bump (some r) = some (record r { version = r.version + 1 })

pub take_read : ℕ → List (ℕ × ℕ) → Option ℕ
take_read worker [] = none
take_read worker ((w, v) ∷ rs) = if w == worker then some v else take_read worker rs

abbrev begin_render : ℕ → Option ℕ → Rendering → Rendering
begin_render worker none s = s
begin_render worker (some v) s = record s { read = (worker, v) ∷ s.read }

abbrev end_render : String → Option ℕ → Rendering → Rendering
end_render url none s = s
end_render url (some v) s =
    let (row, matched) = write_url url v s.row in
    record s { row = row; writes = s.writes + matched }

pub take_step : String → Step → Rendering → Rendering
unfolding start_invoice write_url take_read
take_step url (starts worker) s = begin_render worker (start_invoice s.row) s
take_step url (renders worker) s = end_render url (take_read worker s.read) s
take_step url other_write s = record s { row = bump s.row }

pub take_steps : String → List Step → Rendering → Rendering
unfolding take_step
take_steps url [] s = s
take_steps url (x ∷ xs) s = take_steps url xs (take_step url x s)
