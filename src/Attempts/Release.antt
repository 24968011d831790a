-- ===== src/Attempts/Release.antt =====
-- What `cleanup` has found and written once it returns.
use billing_validation_contr.Common.{
  ℕ, Bool, true, false, not, String, List, ◌∷◌, Option, none, some, is_none, ◌≡◌, refl, arith,
  subst, ap, sym, ◌∙◌, find, some_of, str_eq, suc,
}
use billing_validation_contr.Js.{Value}
use billing_validation_contr.Attempts.Data.{
  cleaned, Attempt, CleanupReceipt, Lease, Reservation, Projection,
}
use billing_validation_contr.Attempts.Session.{Session, Tables, Host, answered, done}
use billing_validation_contr.Attempts.Runs.{
  >>=-then, >>=-then_same, require-then, require_some-then, transaction-then, done-eq,
}
use billing_validation_contr.Attempts.Input.{snapshot_cleanup_projection}
use billing_validation_contr.Attempts.Postgres.{
  find_attempt, updated_row, stripe_resource, supabase_resource, lock, random_uuid, is_pending,
  has_in_flight_stripe_intent, get_retention_reservation_by_attempt, get_cleanup_receipt,
  put_cleanup_receipt, put_attempt, delete_lease, delete_resource_locks,
}
use billing_validation_contr.Attempts.Ownership.{IsFenced, fenced_attempt-done}
use billing_validation_contr.Attempts.Transitions.{find_attempt-id}
use billing_validation_contr.Attempts.Written.{is_live_lease, is_live_lock, writes-Written}
use billing_validation_contr.Attempts.Store.Owner.{Fenced, fenced_attempt}
use billing_validation_contr.Attempts.Store.Fenced.{
  is_terminal, is_reservation_of, ask_cleanup, new_cleanup_receipt, cleanup,
}

ask_cleanup-same :
    (host : Host) (row : Attempt) (l : Lease) (r : Reservation) (p : Projection) (s : Session)
    (b : Bool) (t : Session)
    → ask_cleanup host row l r p s ≡ done b t
    → (t ≡ s)
unfolding ask_cleanup
ask_cleanup-same host row l r p s b t h = ground arith

get_cleanup_receipt-done :
    (id : String) (s : Session) (o : Option CleanupReceipt) (t : Session)
    → get_cleanup_receipt id s ≡ done o t
    → (o ≡ find (λ x. str_eq x.attempt_id id) s.cleanup_receipts) × (t.tables ≡ s.tables)
unfolding get_cleanup_receipt lock
get_cleanup_receipt-done id s o t h = ground arith

has_in_flight-done :
    (id : String) (s : Session) (b : Bool) (t : Session)
    → has_in_flight_stripe_intent id s ≡ done b t
    → (b ≡ some_of (is_pending id s.tables) s.intents) × (t ≡ s)
unfolding has_in_flight_stripe_intent
has_in_flight-done id s b t h = ground arith

get_reservation-same :
    (host : Host) (id : String) (s : Session) (o : Option (Reservation × ℕ)) (t : Session)
    → get_retention_reservation_by_attempt host id s ≡ done o t
    → t.tables ≡ s.tables
unfolding get_retention_reservation_by_attempt lock
get_reservation-same host id s o t h = ground arith

ask_cleanup-answered :
    (host : Host) (row : Attempt) (l : Lease) (r : Reservation) (p : Projection) (s : Session)
    {b : Bool} {t : Session}
    → ask_cleanup host row l r p s ≡ done b t
    → host.verify_cleanup s.ticks row l r p (host.projection_digest p) ≡ answered b
unfolding ask_cleanup
ask_cleanup-answered host row l r p s h = ground (arith, h)

none-moved :
    {A : Type 0} (p : A → Bool) (pick : Tables → List A) {ts us : Tables}
    → ts ≡ us
    → some_of p (pick ts) ≡ false
    → some_of p (pick us) ≡ false
none-moved p pick same h = subst (λ x. some_of p (pick x) ≡ false) same h

-- A row that is found by one name of its identifier and of the tables is found by the other.
stored-there :
    (a b : String) (ts us : Tables) {row : Attempt}
    → a ≡ b
    → us ≡ ts
    → find_attempt a ts.attempts ≡ some row
    → find_attempt b us.attempts ≡ some row
stored-there a b ts us {row = row} p q h =
    subst (λ x. find_attempt x us.attempts ≡ some row) p
      (subst (λ x. find_attempt a x.attempts ≡ some row) (sym q) h)

-- A cleanup was due and is the first one of its attempt, the verifier has answered that it is done,
-- and the attempt owns nothing afterwards.
pub record Cleaned (host : Host) (attempt_id fence : String) (raw : Value) (s t : Session)
    (row : Attempt) (receipt : CleanupReceipt) : Type 0 where
  pub fenced : Fenced
  pub owner : IsFenced host s attempt_id fence fenced
  pub terminal : is_terminal fenced.row.state ≡ true
  pub none_pending : some_of (is_pending attempt_id s.tables) s.intents ≡ false
  pub first : find (λ x. str_eq x.attempt_id attempt_id) s.cleanup_receipts ≡ none
  pub reservation : Reservation
  pub reserved : is_reservation_of fenced.row attempt_id reservation ≡ true
  pub projection : Projection
  pub given : snapshot_cleanup_projection raw ≡ some projection
  pub verified :
      (n : ℕ) × (host.verify_cleanup n fenced.row fenced.lease reservation projection
          (host.projection_digest projection)
        ≡ answered true)
  pub added : t.cleanup_receipts ≡ receipt ∷ s.cleanup_receipts
  pub receipt_of :
      (receipt.attempt_id ≡ attempt_id)
      × (receipt.fence ≡ fence)
      × (receipt.projection ≡ projection)
  pub stored : Attempt
  pub found : find_attempt attempt_id t.attempts ≡ some stored
  pub status : (stored.cleanup_status ≡ cleaned) × (stored.state ≡ fenced.row.state)
  pub returned : (row.cleanup_status ≡ cleaned) × (row.state ≡ fenced.row.state)
  pub lease_reading : ℕ
  pub lease_gone :
      some_of (is_live_lease fenced.row.key attempt_id fence (host.clock lease_reading)) t.leases
      ≡ false
  pub stripe_reading : ℕ
  pub stripe_gone :
      some_of
        (is_live_lock
          (stripe_resource fenced.row.environment)
          attempt_id
          fence
          (host.clock stripe_reading))
        t.locks
      ≡ false
  pub supabase_reading : ℕ
  pub supabase_gone :
      some_of
        (is_live_lock
          (supabase_resource fenced.row.environment)
          attempt_id
          fence
          (host.clock supabase_reading))
        t.locks
      ≡ false

-- A `cleanup` that returns was called by the fenced owner of an attempt in a terminal state with no
-- pending Stripe intent and no cleanup receipt, for a well-formed projection, and the verifier has
-- answered that the projection is what is left of the attempt's reservation. The receipt that it
-- returns, which is for this attempt, fence and projection, was added; the stored row and the one
-- that is returned are cleaned, in the state that the attempt was in; and no lease of the attempt's
-- key, no lock of its Stripe account and none of its Supabase project is left to the owner that had
-- not expired when it was deleted.
pub cleanup-Cleaned :
    (host : Host) (attempt_id fence : String) (raw : Value) (s : Session) {row : Attempt}
    {receipt : CleanupReceipt} {t : Session}
    → cleanup host attempt_id fence raw s ≡ done (row, receipt) t
    → Cleaned host attempt_id fence raw s t row receipt
unfolding cleanup random_uuid
cleanup-Cleaned host attempt_id fence raw s {row} {receipt} {t} h =
    require_some-then (snapshot_cleanup_projection raw) _ _ s h λ projection given h1.
      transaction-then _ s h1 λ u run last.
        >>=-then (fenced_attempt host attempt_id fence) _ s run λ f s1 e1 h2.
          require-then (is_terminal f.row.state) _ _ s1 h2 λ terminal h3.
            >>=-then_same (has_in_flight_stripe_intent attempt_id) _ s1
              (λ b t e. (has_in_flight-done attempt_id s1 b t e).1) h3
              λ in_flight e2 h4. require-then (not in_flight) _ _ s1 h4 λ settled h5.
                >>=-then (get_retention_reservation_by_attempt host attempt_id) _ s1 h5
                  λ o s2 e3 h6. require_some-then o _ _ s2 h6 λ pair _ h7.
                    require-then (is_reservation_of f.row attempt_id pair.0) _ _ s2 h7
                      λ reserved h8.
                        >>=-then (get_cleanup_receipt attempt_id) _ s2 h8 λ prior s3 e4 h9.
                          require-then (is_none prior) _ _ s3 h9 λ absent h10.
                            >>=-then_same (ask_cleanup host f.row f.lease pair.0 projection) _ s3
                              (ask_cleanup-same host f.row f.lease pair.0 projection s3) h10
                              λ verified asked h11. require-then verified _ _ s3 h11 λ yes h12.
                                >>=-then (put_cleanup_receipt _) _
                                  (record s3 { draws = suc s3.draws }) h12
                                  λ _ s4 e5 h13. >>=-then (put_attempt _) _ s4 h13 λ _ s5 e6 h14.
                                    >>=-then (delete_lease host f.row.key attempt_id fence) _ s5 h14
                                      λ _ s6 e7 h15.
                                        >>=-then
                                          (delete_resource_locks host attempt_id fence
                                            f.row.environment)
                                          _ s6 h15
                                          λ _ s7 e8 h16.
                                            let (owner, q, _, _, _) =
                                              fenced_attempt-done host attempt_id fence s e1 in
                                            let (same, end) = done-eq h16 in
                                            let old_receipts =
                                              get_cleanup_receipt-done attempt_id s2 prior s3 e4 in
                                            let kept =
                                              get_reservation-same host attempt_id s1 o s2 e3 in
                                            let tables : s3.tables ≡ s.tables =
                                              old_receipts.1 ∙ kept ∙ q in
                                            let id : f.row.attempt_id ≡ attempt_id =
                                              ap (λ r. r.attempt_id) owner.row
                                              ∙ find_attempt-id attempt_id s.attempts owner.stored
                                                  owner.found in
                                            let written =
                                              writes-Written host f.row.key attempt_id fence
                                                f.row.environment _ owner.stored _
                                                (record s3 { draws = suc s3.draws }) s4 s5 s6
                                                (stored-there attempt_id f.row.attempt_id s.tables
                                                  s3.tables (sym id) tables owner.found)
                                                e5 e6 e7 e8 in
                                            let final : s7.tables ≡ t.tables =
                                              sym (
                                                ap (λ x. x.tables) last ∙ ap (λ x. x.tables) end) in
                                            let receipt' =
                                              new_cleanup_receipt host f.row pair.0 projection
                                                attempt_id fence (host.uuid s3.draws) f.time in
                                            let same_receipt : receipt' ≡ receipt =
                                              ap (λ p. p.1) same in
                                            let same_row = ap (λ p. p.0) same in
                                            let looked =
                                              (has_in_flight-done attempt_id s1 in_flight s1
                                                e2).0 in
                                            record {
                                              fenced = f;
                                              owner = owner;
                                              terminal = terminal;
                                              none_pending =
                                                  subst
                                                    (λ ts.
                                                      some_of (is_pending attempt_id ts) ts.intents
                                                      ≡ false)
                                                    q (ground (arith, looked, settled));
                                              first =
                                                  subst
                                                    (λ ts.
                                                      find (λ x. str_eq x.attempt_id attempt_id)
                                                        ts.cleanup_receipts
                                                      ≡ none)
                                                    (kept ∙ q)
                                                    (ground (arith, old_receipts.0, absent));
                                              reservation = pair.0;
                                              reserved = reserved;
                                              projection = projection;
                                              given = given;
                                              verified = (
                                                s3.ticks,
                                                subst
                                                    (λ b.
                                                      host.verify_cleanup s3.ticks f.row f.lease
                                                        pair.0 projection
                                                        (host.projection_digest projection)
                                                      ≡ answered b)
                                                    yes
                                                    (ask_cleanup-answered host f.row f.lease pair.0
                                                      projection s3 asked),
                                              );
                                              added =
                                                  ap (λ ts. ts.cleanup_receipts) (sym final)
                                                  ∙ written.added
                                                  ∙ ap (λ ts. receipt' ∷ ts.cleanup_receipts) tables
                                                  ∙ ap (λ r. r ∷ s.cleanup_receipts) same_receipt;
                                              receipt_of = (
                                                ap (λ r. r.attempt_id) (sym same_receipt),
                                                ap (λ r. r.fence) (sym same_receipt),
                                                ap (λ r. r.projection) (sym same_receipt),
                                              );
                                              stored =
                                                  updated_row
                                                    (record f.row {
                                                      cleanup_status = cleaned;
                                                      updated_at = f.time;
                                                    })
                                                    owner.stored;
                                              found =
                                                  stored-there f.row.attempt_id attempt_id s7.tables
                                                    t.tables id (sym final) written.stored;
                                              status = (refl, refl);
                                              returned = (
                                                ap (λ r. r.cleanup_status) (sym same_row),
                                                ap (λ r. r.state) (sym same_row),
                                              );
                                              lease_reading = written.lease_reading;
                                              lease_gone =
                                                  none-moved _ (λ ts. ts.leases) final
                                                    written.lease_gone;
                                              stripe_reading = written.stripe_reading;
                                              stripe_gone =
                                                  none-moved _ (λ ts. ts.locks) final
                                                    written.stripe_gone;
                                              supabase_reading = written.supabase_reading;
                                              supabase_gone =
                                                  none-moved _ (λ ts. ts.locks) final
                                                    written.supabase_gone;
                                            }
