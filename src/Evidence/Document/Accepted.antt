-- ===== src/Evidence/Document/Accepted.antt =====
-- What `parseEvidenceArchive` of src/contracts/evidence.mjs ensures of evidence that it accepts.
use billing_validation_contr.Common.{
  ℕ, Bool, true, false, &&-true, String, str_append, eq_iff, List, [], ◌∷◌, Option, none, some, ◌≡◌,
  refl, ap, sym, ◌∙◌, arith,
}
use billing_validation_contr.Js.{Value, text}
use billing_validation_contr.Evidence.Bytes.{Reply, ok, refused, fault}
use billing_validation_contr.Evidence.Archive.Locals.{Member, parse_directory}
use billing_validation_contr.Evidence.Archive.Decode.{decode_entry}
use billing_validation_contr.Evidence.Shapes.{get, same_text, is_text}
use billing_validation_contr.Evidence.Document.Producer.{Platform, digest_of}
use billing_validation_contr.Evidence.Document.Parse.{
  Refusal, Outcome, accepted, rejected, failed, ◌>>=◌, ◌>>◌, require, lift, unsigned, valid_digest,
  is_candidate_of, is_environment_of, Evidence, parsed, read_json, parse_document,
  valid_archive_digest, only_member, parse_evidence_archive,
}

module _ {A : Type 0} {B : Type 0} {Q : Type 0} {b : B} where
  >>=-then :
      (m : Outcome A) (f : A → Outcome B)
      → (m >>= f) ≡ accepted b
      → ((a : A) → m ≡ accepted a → f a ≡ accepted b → Q)
      → Q
  >>=-then (accepted a) f h k = k a refl h
  >>=-then (rejected c) f h k = cc
  >>=-then (failed e) f h k = cc

require-then :
    {B : Type 0} {Q : Type 0} {b : B} (test : Bool) (c : Refusal) (rest : Outcome B)
    → (require test c >> rest) ≡ accepted b
    → (test ≡ true → rest ≡ accepted b → Q)
    → Q
unfolding require
require-then true c rest h k = k refl h
require-then false c rest h k = cc

accepted-eq : {a b : Evidence} → accepted a ≡ accepted b → a ≡ b
accepted-eq h = cc

lift-accepted : {A : Type 0} {a : A} (r : Reply A) → lift r ≡ accepted a → r ≡ ok a
unfolding lift
lift-accepted (ok a) h = cc
lift-accepted (refused c) h = cc
lift-accepted (fault e) h = cc

parsed-accepted : {v : Value} (o : Option Value) → parsed o ≡ accepted v → o ≡ some v
parsed-accepted none h = cc
parsed-accepted (some w) h = cc

same_text-true : (v w : Value) → same_text v w ≡ true → v ≡ w
same_text-true (text s) (text t) h = ap text ((eq_iff s t).0 h)
same_text-true _ _ h = cc

is_text-true : (s : String) (v : Value) → is_text s v ≡ true → v ≡ text s
is_text-true s (text t) h = ap text ((eq_iff t s).0 h)
is_text-true s _ h = cc

-- The identities of the manifest are those that the caller expects.
pub record IsExpected (document expected : Value) : Type 0 where
  sha : get "sha" (get "candidate" document) ≡ get "candidateSha" expected
  tree : get "treeHash" (get "candidate" document) ≡ get "candidateTree" expected
  project :
      get "projectRef" (get "database" document)
      ≡ get "projectRef" (get "database" (get "environment" expected))
  deployment :
      get "id" (get "deployment" document)
      ≡ get "id" (get "deployment" (get "environment" expected))
  origin :
      get "origin" (get "deployment" document)
      ≡ get "origin" (get "deployment" (get "environment" expected))
  account :
      get "accountId" (get "stripe" document)
      ≡ get "accountId" (get "stripe" (get "environment" expected))

is_candidate_of-true :
    (d e : Value)
    → is_candidate_of d e ≡ true
    → (get "sha" (get "candidate" d) ≡ get "candidateSha" e)
      × (get "treeHash" (get "candidate" d) ≡ get "candidateTree" e)
unfolding is_candidate_of
is_candidate_of-true d e h =
    let (p, q) = &&-true _ _ h in (same_text-true _ _ p, same_text-true _ _ q)

is_environment_of-true :
    (d e : Value)
    → is_environment_of d e ≡ true
    → (get "projectRef" (get "database" d) ≡ get "projectRef" (get "database" e))
      × (get "id" (get "deployment" d) ≡ get "id" (get "deployment" e))
      × (get "origin" (get "deployment" d) ≡ get "origin" (get "deployment" e))
      × (get "accountId" (get "stripe" d) ≡ get "accountId" (get "stripe" e))
unfolding is_environment_of
is_environment_of-true d e h =
    let (h1, _) = &&-true _ _ h in
    let (h2, t) = &&-true _ _ h1 in
    let (h3, r) = &&-true _ _ h2 in
    let (p, q) = &&-true _ _ h3 in
    (same_text-true _ _ p, same_text-true _ _ q, same_text-true _ _ r, same_text-true _ _ t)

valid_digest-true :
    (platform : Platform) (d : Value)
    → valid_digest platform d ≡ true
    → get "manifestDigest" d ≡ text (digest_of platform (unsigned d))
unfolding valid_digest
valid_digest-true platform d h = is_text-true _ _ ((&&-true _ _ h).1)

valid_archive_digest-true :
    (platform : Platform) (archive : List ℕ) (digest : Value)
    → valid_archive_digest platform archive digest ≡ true
    → digest ≡ text (str_append "sha256:" (platform.sha256_bytes archive))
unfolding valid_archive_digest
valid_archive_digest-true platform archive digest h = is_text-true _ _ ((&&-true _ _ h).1)

-- A manifest that the code lets through, with what it returns of it.
pub record IsManifest (platform : Platform) (contents : List ℕ) (expected : Value) (e : Evidence)
    : Type 0 where
  document : Value
  read : read_json platform contents ≡ some document
  signed : get "manifestDigest" document ≡ text (digest_of platform (unsigned document))
  identities : IsExpected document expected
  sha : e.candidate_sha ≡ get "candidateSha" expected
  tree : e.candidate_tree ≡ get "candidateTree" expected

parse_document-IsManifest :
    (platform : Platform) (contents : List ℕ) (expected : Value) {e : Evidence}
    → parse_document platform contents expected ≡ accepted e
    → IsManifest platform contents expected e
unfolding parse_document
parse_document-IsManifest platform contents expected h =
    >>=-then (parsed (read_json platform contents)) _ h λ d first rest.
      require-then _ _ _ rest λ _ h1. require-then _ _ _ h1 λ signed h2.
        require-then _ _ _ h2 λ _ h3. require-then _ _ _ h3 λ candidate h4.
          require-then _ _ _ h4 λ environment last.
            let (sha, tree) = is_candidate_of-true d expected candidate in
            let (p, q, r, t) = is_environment_of-true d _ environment in
            record {
              document = d;
              read = parsed-accepted _ first;
              signed = valid_digest-true platform d signed;
              identities = record {
                sha = sha;
                tree = tree;
                project = p;
                deployment = q;
                origin = r;
                account = t;
              };
              sha = sym (ap (λ x. x.candidate_sha) (accepted-eq last)) ∙ sha;
              tree = sym (ap (λ x. x.candidate_tree) (accepted-eq last)) ∙ tree;
            }

-- An archive that the code lets through: what it is, its only member, and the bytes of that.
pub record IsEvidence (platform : Platform) (archive : Option (List ℕ)) (digest expected : Value)
    (e : Evidence) : Type 0 where
  bytes : List ℕ
  given : archive ≡ some bytes
  addressed : digest ≡ text (str_append "sha256:" (platform.sha256_bytes bytes))
  member : Member
  directory : parse_directory bytes ≡ ok (member ∷ [])
  contents : List ℕ
  decoded : decode_entry platform.inflate bytes member ≡ ok contents
  manifest : IsManifest platform contents expected e

only_member-accepted : (ms : List Member) {m : Member} → only_member ms ≡ accepted m → ms ≡ m ∷ []
unfolding only_member
only_member-accepted [] h = cc
only_member-accepted (m ∷ []) h = ground arith
only_member-accepted (m ∷ n ∷ ns) h = cc

-- Evidence is accepted only from a buffer whose SHA-256 is the digest that the caller gives, with one
-- member in its directory, whose content decodes and reads as a manifest. The manifest carries the
-- digest of its own canonical text without the digest, and its candidate, tree, database project,
-- deployment, origin and Stripe account are those that the caller expects; the candidate and the tree
-- that are returned are the caller's.
pub parse_evidence_archive-IsEvidence :
    (platform : Platform) (archive : Option (List ℕ)) (digest expected : Value) {e : Evidence}
    → parse_evidence_archive platform archive digest expected ≡ accepted e
    → IsEvidence platform archive digest expected e
unfolding parse_evidence_archive
parse_evidence_archive-IsEvidence platform none digest expected h = cc
parse_evidence_archive-IsEvidence platform (some bytes) digest expected h =
    require-then _ _ _ h λ _ h1. require-then _ _ _ h1 λ addressed h2.
      >>=-then (lift (parse_directory bytes)) _ h2 λ ms directory h3.
        >>=-then (only_member ms) _ h3 λ m only h4.
          >>=-then (lift (decode_entry platform.inflate bytes m)) _ h4 λ contents decoded last.
            record {
              bytes = bytes;
              given = refl;
              addressed = valid_archive_digest-true platform bytes digest addressed;
              member = m;
              directory = lift-accepted _ directory ∙ ap ok (only_member-accepted ms only);
              contents = contents;
              decoded = lift-accepted _ decoded;
              manifest = parse_document-IsManifest platform contents expected last;
            }
