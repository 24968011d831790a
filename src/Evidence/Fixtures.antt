-- ===== src/Evidence/Fixtures.antt =====
-- An archive with one stored member, a manifest that its evidence may carry, and runs of the parser.
use billing_validation_contr.Common.{
  ℕ, Bool, true, false, String, str_append, List, [], ◌∷◌, none, some, ◌≡◌,
}
use billing_validation_contr.Js.{
  Value, text, number, boolean, array, object, Values, nil, cons, Props, plain, end, field,
}
use billing_validation_contr.Evidence.Bytes.{Reply, ok, refused, fault}
use billing_validation_contr.Evidence.Document.Producer.{Platform}
use billing_validation_contr.Evidence.Document.Parse.{Outcome, accepted, rejected, failed}

abbrev pub archive : List ℕ
archive =
    80 ∷ 75 ∷ 3 ∷ 4 ∷ 20 ∷ 0 ∷ 0 ∷ 0 ∷ 0 ∷ 0 ∷ 0 ∷ 0 ∷ 33 ∷ 0 ∷ 67 ∷ 191 ∷ 166 ∷ 163 ∷ 2 ∷ 0 ∷ 0 ∷ 0
    ∷ 2 ∷ 0 ∷ 0 ∷ 0 ∷ 23 ∷ 0 ∷ 0 ∷ 0 ∷ 98 ∷ 105 ∷ 108 ∷ 108 ∷ 105 ∷ 110 ∷ 103 ∷ 45 ∷ 97 ∷ 99 ∷ 99
    ∷ 101 ∷ 112 ∷ 116 ∷ 97 ∷ 110 ∷ 99 ∷ 101 ∷ 46 ∷ 106 ∷ 115 ∷ 111 ∷ 110 ∷ 123 ∷ 125 ∷ 80 ∷ 75 ∷ 1
    ∷ 2 ∷ 20 ∷ 3 ∷ 20 ∷ 0 ∷ 0 ∷ 0 ∷ 0 ∷ 0 ∷ 0 ∷ 0 ∷ 33 ∷ 0 ∷ 67 ∷ 191 ∷ 166 ∷ 163 ∷ 2 ∷ 0 ∷ 0 ∷ 0
    ∷ 2 ∷ 0 ∷ 0 ∷ 0 ∷ 23 ∷ 0 ∷ 0 ∷ 0 ∷ 0 ∷ 0 ∷ 0 ∷ 0 ∷ 0 ∷ 0 ∷ 0 ∷ 0 ∷ 164 ∷ 129 ∷ 0 ∷ 0 ∷ 0 ∷ 0
    ∷ 98 ∷ 105 ∷ 108 ∷ 108 ∷ 105 ∷ 110 ∷ 103 ∷ 45 ∷ 97 ∷ 99 ∷ 99 ∷ 101 ∷ 112 ∷ 116 ∷ 97 ∷ 110 ∷ 99
    ∷ 101 ∷ 46 ∷ 106 ∷ 115 ∷ 111 ∷ 110 ∷ 80 ∷ 75 ∷ 5 ∷ 6 ∷ 0 ∷ 0 ∷ 0 ∷ 0 ∷ 1 ∷ 0 ∷ 1 ∷ 0 ∷ 69 ∷ 0
    ∷ 0 ∷ 0 ∷ 55 ∷ 0 ∷ 0 ∷ 0 ∷ 0 ∷ 0 ∷ []

abbrev pub is_ok : {A : Type 0} → Reply A → Bool
is_ok (ok a) = true
is_ok (refused c) = false
is_ok (fault e) = false

abbrev pub ok_of : {A : Type 0} (r : Reply A) → is_ok r ≡ true → A
ok_of (ok a) h = a
ok_of (refused c) h = absurd cc
ok_of (fault e) h = absurd cc

abbrev pub is_accepted : {A : Type 0} → Outcome A → Bool
is_accepted (accepted a) = true
is_accepted (rejected c) = false
is_accepted (failed e) = false

abbrev pub accepted_of : {A : Type 0} (r : Outcome A) → is_accepted r ≡ true → A
accepted_of (accepted a) h = a
accepted_of (rejected c) h = absurd cc
accepted_of (failed e) h = absurd cc

abbrev entry : String → Value → Props → Props
entry name value rest = field name true value rest

abbrev tag : String → String → Props → Props
tag name value rest = field name true (text value) rest

abbrev sha : String
sha = "aaaaaaaaaaaaaaaaaaaaaaaaaaaaaaaaaaaaaaaa"

abbrev tree : String
tree = "bbbbbbbbbbbbbbbbbbbbbbbbbbbbbbbbbbbbbbbb"

abbrev digest : String
digest = "cccccccccccccccccccccccccccccccccccccccccccccccccccccccccccccccc"

abbrev origin : String
origin = "https://candidate.vercel.app"

abbrev project : String
project = "abcdefghijklmnopqrst"

abbrev migration : String → Value
migration path = object plain (tag "path" path (tag "sha256" digest (entry "bytes" (number 1) end)))

abbrev bootstrap : Value
bootstrap = object plain (
    tag "binding" "b" (
      tag "receiptSha256" digest (
        tag "projectRef" project (
          tag "schemaDigest" digest (
            tag "completedAt" "t"
              (entry "appliedVersionCount" (number 5) (tag "jobReportSha256" digest end)))))))

abbrev migrations : Values
migrations =
    cons (migration "1") (
      cons (migration "2") (cons (migration "3") (cons (migration "4") (cons (migration "5") nil))))

abbrev database : Value
database = object plain (
    tag "projectRef" project (
      tag "migrationDigest" digest (
        tag "migrationDigestScope" "reviewed-assets"
          (entry "bootstrap" bootstrap (entry "migrationArtifacts" (array migrations) end)))))

abbrev provenance : Value
provenance = object plain (
    tag "runId" "1" (
      tag "runAttempt" "1" (
        tag "repository" "r" (
          tag "source" "github-actions" (
            entry "synthetic" (boolean false)
              (tag "fixtureRunId" "f" (tag "manifestPath" "m" end)))))))

abbrev artifact : String → Value → Value
artifact kind evidence = object plain (
    tag "kind" kind (
      tag "candidateSha" sha (
        tag "treeHash" tree (
          tag "sha256" digest (
            tag "collectedAt" "t"
              (entry "provenance" provenance (entry "evidence" evidence end)))))))

abbrev report : String → String → Value
report kind name =
    artifact kind
      (object plain (tag "job" "j" (tag "reportKind" name (entry "bytes" (number 1) end))))

abbrev source : ℕ → Value
source n = object plain (
    entry "sequence" (number n)
      (entry "receiptCount" (number 1) (tag "sha256" digest (tag "manifestSha256" digest end))))

abbrev receipts : String → Value
receipts kind = artifact kind (
    object plain (
      entry "receiptCount" (number 2)
        (entry "sources" (array (cons (source 1) (cons (source 2) nil))) end)))

abbrev artifacts : Values
artifacts = cons (report "lint" "quality") (
    cons (report "typecheck" "quality") (
      cons (report "coverage" "regression") (
        cons (report "build" "build") (
          cons (report "sql" "billing-remote") (
            cons (receipts "browser") (
              cons (receipts "stripe")
                (cons (receipts "webhook") (cons (receipts "worker") nil))))))))

abbrev replay : ℕ → Value
replay n = object plain (
    entry "sequence" (number n) (
      tag "status" "passed" (
        tag "startedAt" "t" (
          tag "finishedAt" "t" (
            entry "scenarioCount" (number 43) (
              tag "scenarioDigest" digest (
                tag "cleanupDigest" digest (
                  tag "manifestSha256" digest (
                    entry "manifestBytes" (number 1)
                      (tag "receiptDigest" digest (entry "provenance" provenance end)))))))))))

abbrev deployment : Value
deployment =
    object plain (tag "id" "dpl_1" (tag "origin" origin (tag "sha" sha (tag "treeHash" tree end))))

abbrev stripe : Value
stripe = object plain (tag "accountId" "acct_1" (entry "livemode" (boolean false) end))

abbrev webhook : Value
webhook = object plain (
    tag "endpoint" (str_append origin "/api/stripe/webhook") (entry "livemode" (boolean false) end))

abbrev manifest : Value
manifest = object plain (
    entry "version" (number 1) (
      tag "kind" "billing-final-acceptance" (
        tag "status" "passed" (
          entry "candidate" (object plain (tag "sha" sha (tag "treeHash" tree end))) (
            entry "database" database (
              entry "deployment" deployment (
                entry "stripe" stripe (
                  entry "webhook" webhook (
                    entry "artifacts" (array artifacts) (
                      entry "replayRuns" (array (cons (replay 1) (cons (replay 2) nil)))
                        (tag "generatedAt" "t" rest)))))))))))
  where
    last : Props
    last = tag "replayIndexSha256" digest (tag "manifestDigest" digest end)

    scope : Value
    scope = object plain (tag "scope" "s" (tag "businessOutcomeEquivalence" "e" end))

    finances : Value
    finances = object plain (
        tag "job" "j"
          (tag "sha256" digest (tag "githubOutputSha256" digest (entry "bytes" (number 1) end))))

    rest : Props
    rest = entry "replayVerification" scope (entry "financialReport" finances last)

abbrev pub expected : Value
expected =
    object plain
      (tag "candidateSha" sha (tag "candidateTree" tree (entry "environment" environment end)))
  where
    environment : Value
    environment = object plain (
        entry "database" (object plain (tag "projectRef" project end)) (
          entry "deployment" (object plain (tag "id" "dpl_1" (tag "origin" origin end)))
            (entry "stripe" (object plain (tag "accountId" "acct_1" end)) end)))

abbrev pub platform : Platform
platform = record {
  parse_json = λ s. some manifest;
  stringify = λ v. [];
  sha256_text = λ s. digest;
  sha256_bytes = λ s. digest;
  inflate = λ limit bytes. none;
  parse_url =
      λ s. some (record { protocol = "https:"; origin = s; hostname = "candidate.vercel.app" });
  is_date = λ s. true;
}

abbrev pub archive_digest : Value
archive_digest = text (str_append "sha256:" digest)
