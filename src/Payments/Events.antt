-- ===== src/Payments/Events.antt =====
-- What a webhook keeps (apps/payments/services.py): any predicate that captures, refunds and writes
-- of the webhooks' own table keep.
use Prim.Native.String.{String}
use text.Mathlib.Text.{◌==◌ as str_eq}
use high_performance_e_comme.Common.{
  ℕ, inl, inr, Bool-cases, Option-cases, Option, some, suc, List, true, ◌++◌, ◌∷◌, [], false,
}
use high_performance_e_comme.Store.{
  Db, Keeps, Keeps->>=, pure, modify, WebhookEvent, Action, Done, ◌>>◌,
}
use high_performance_e_comme.Payments.{
  capture_payment, refund_payment, EventType, payment_captured, payment_refunded, Payload, dispatch,
  mark_processed, process_new, process_webhook, seen,
}

module _ {κ} (P : Db → Type κ)
    (writing : (db : Db) (ws : List WebhookEvent) → P db → P (record db { webhooks = ws }))
    (capturing : (id : ℕ) (x : String) → Keeps P (capture_payment id x))
    (refunding : (id : ℕ) → Keeps P (refund_payment id)) where
  dispatch-Keeps : (t : EventType) (id : Option ℕ) (x : String) → Keeps P (dispatch t id x)
  unfolding dispatch
  dispatch-Keeps payment_captured (some (suc n)) x =
      Keeps->>= P (capture_payment (suc n) x) (λ _. pure tt) (capturing (suc n) x) (λ _ d k. k)
  dispatch-Keeps payment_refunded (some (suc n)) x =
      Keeps->>= P (refund_payment (suc n)) (λ _. pure tt) (refunding (suc n)) (λ _ d k. k)
  dispatch-Keeps _ _ x = λ d k. k

  -- The handler of a new event, and the mark that it is processed.
  handled-Keeps :
      (s : String) (payload : Payload)
      → Keeps P (
          dispatch payload.event payload.intent_id payload.external_id
          >> (modify (λ db. record db { webhooks = mark_processed s db.webhooks }) >> pure true))
  handled-Keeps s payload =
      let marks : Action Done =
        modify (λ db. record db { webhooks = mark_processed s db.webhooks }) in
      Keeps->>= P (dispatch payload.event payload.intent_id payload.external_id)
        (λ _. marks >> pure true)
        (dispatch-Keeps payload.event payload.intent_id payload.external_id)
        (λ _ d k. writing d (mark_processed s d.webhooks) k)

  pub webhook-Keeps : (s : String) (payload : Payload) → Keeps P (process_webhook s payload)
  unfolding process_webhook process_new
  webhook-Keeps s payload db h = elim (Bool-cases (str_eq s "")) [
    | inl unsigned ↦ rw unsigned h
    | inr signed ↦ elim (Option-cases (seen s db)) [
      | inl new ↦
          let ws = db.webhooks ++ record { signature = s; processed = false } ∷ [] in
          rw (signed, new, process_new)
            (handled-Keeps s payload (record db { webhooks = ws }) (writing db ws h))
      | inr (w, old) ↦ rw (signed, old, process_new) h
    ]
  ]
