-- ===== src/Attempts/Exclusion.antt =====
-- Who may act on a Stripe account or a Supabase project: consequences of `assertFencedOwner`.
use billing_validation_contr.Common.{
  String, List, ◌≡◌, ◌≢◌, ◌⊎◌, inl, inr, some, subst, sym, ap, ◌∙◌,
}
use billing_validation_contr.Attempts.Data.{
  written, stripe_account, supabase_project, Resource, ResourceLock, KeyOrder, Attempt, Lease,
}
use billing_validation_contr.Attempts.Session.{Session, Host, done}
use billing_validation_contr.Attempts.Postgres.{find_lock}
use billing_validation_contr.Attempts.Ownership.{IsLocked, fenced_attempt-done}
use billing_validation_contr.Attempts.Store.Owner.{fenced_attempt, Fenced}

some_eq : {a b : ResourceLock} → some a ≡ some b → a ≡ b
some_eq h = cc

same_lock :
    {host : Host} {locks : List ResourceLock} {row row' : Attempt} {l l' : Lease} {r r' : Resource}
    → r ≡ r'
    → IsLocked host locks row l r
    → IsLocked host locks row' l' r'
    → (l.attempt_id ≡ l'.attempt_id) × (l.fence ≡ l'.fence)
same_lock {locks = locks} q a b =
    let e = subst (λ x. find_lock x locks ≡ some a.lock) q a.found in
    let same = some_eq (sym e ∙ b.found) in
    (
      sym a.attempt ∙ ap (λ k. k.attempt_id) same ∙ b.attempt,
      sym a.fence ∙ ap (λ k. k.fence) same ∙ b.fence,
    )

-- Two fenced callers whose attempts name the same Stripe account, or the same Supabase project, are
-- the same attempt under the same fence, when both are let through from the same state of the
-- tables, whatever the clock says.
pub fenced_attempt-exclusive :
    (host : Host) (attempt_id fence attempt_id' fence' : String) (s : Session) (f g : Fenced)
    (t u : Session)
    → fenced_attempt host attempt_id fence s ≡ done f t
    → fenced_attempt host attempt_id' fence' s ≡ done g u
    → (f.row.environment.account_id ≡ g.row.environment.account_id)
      ⊎ (f.row.environment.project_ref ≡ g.row.environment.project_ref)
    → (attempt_id ≡ attempt_id') × (fence ≡ fence')
fenced_attempt-exclusive host attempt_id fence attempt_id' fence' s f g t u p q shared =
    let a = (fenced_attempt-done host attempt_id fence s p).0 in
    let b = (fenced_attempt-done host attempt_id' fence' s q).0 in
    let same : (f.lease.attempt_id ≡ g.lease.attempt_id) × (f.lease.fence ≡ g.lease.fence) =
      elim shared [
        | inl e ↦ same_lock (ap (λ x. record { type = stripe_account; id = x }) e) a.stripe b.stripe
        | inr e ↦
            same_lock (ap (λ x. record { type = supabase_project; id = x }) e) a.supabase b.supabase
      ] in
    (sym a.attempt ∙ same.0 ∙ b.attempt, sym a.owner_fence ∙ same.1 ∙ b.owner_fence)

-- Where the database gives `jsonb` keys back in another order than the code wrote, no caller passes
-- `assertFencedOwner`, with any fence, in any state.
pub fenced_attempt-reordered :
    (host : Host) (attempt_id fence : String) (s : Session)
    → ((o : KeyOrder) → host.jsonb_order o ≢ written)
    → (f : Fenced) (t : Session) → fenced_attempt host attempt_id fence s ≢ done f t
fenced_attempt-reordered host attempt_id fence s h f t p =
    let a = (fenced_attempt-done host attempt_id fence s p).0 in
    h a.stripe.lock.environment.order
      (ap (λ e. e.order) a.stripe.environment ∙ ap (λ r. r.environment.order) a.row)
