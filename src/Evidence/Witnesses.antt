-- ===== src/Evidence/Witnesses.antt =====
-- The parser of archives on a concrete archive.
use billing_validation_contr.Common.{ℕ, some, List, ◌≢◌, refl}
use billing_validation_contr.Evidence.Bytes.{
  fault, out_of_range, read_u16, read_u32, require, assert_range,
}
use billing_validation_contr.Evidence.Utf8.{decode_utf8}
use billing_validation_contr.Evidence.Archive.Names.{
  is_name, read_name, is_directory, is_executable,
}
use billing_validation_contr.Evidence.Archive.Directory.{
  extra_field, extra_fields, reject_zip64, is_end_record, end_record_from, find_end_record,
  read_end_record, is_end_valid,
}
use billing_validation_contr.Evidence.Archive.Entries.{
  read_central, is_central_valid, is_regular, check_sizes, read_entry, read_entries,
}
use billing_validation_contr.Evidence.Archive.Locals.{
  Member, read_local, is_local_of, descriptor_at, read_descriptor, record_end_of, locate,
  locate_all, insert, sort, is_apart, parse_directory,
}
use billing_validation_contr.Evidence.Archive.Sound.Members.{
  IsDirectory, parse_directory-ne_fault, parse_directory-IsDirectory,
}
use billing_validation_contr.Attempts.Input.{valid_deployment_origin}
use billing_validation_contr.Evidence.Archive.Decode.{crc32, contents_of, decode_entry}
use billing_validation_contr.Evidence.Shapes.{
  has_only_keys, has_exact_keys, has_strings, valid_origin, valid_provenance, valid_artifact_paths,
  valid_migration_artifacts, valid_bootstrap, valid_sources, valid_artifact_evidence,
}
use billing_validation_contr.Evidence.Document.Producer.{
  valid_producer, valid_database, valid_fingerprint, valid_deployment, valid_stripe, valid_webhook,
  valid_artifact, valid_artifacts, valid_replay_run, valid_replay_runs, valid_reports,
}
use billing_validation_contr.Evidence.Document.Parse
use billing_validation_contr.Evidence.Document.Parse.{
  Evidence, lift, valid_archive_digest, only_member, read_json, valid_manifest, valid_candidate,
  valid_digest, valid_expectation, is_valid_expected_environment, is_candidate_of,
  is_environment_of, parse_document, parse_evidence_archive,
}
use billing_validation_contr.Evidence.Document.Accepted.{
  IsEvidence, parse_evidence_archive-IsEvidence,
}
use billing_validation_contr.Evidence.Fixtures.{
  archive, ok_of, accepted_of, platform, archive_digest, expected,
}

-- To unfold this name is to open all that these calls run through.
unfoldable runs : ℕ
unfolding require assert_range read_u16 read_u32 decode_utf8 is_name read_name is_directory
    is_executable extra_field extra_fields reject_zip64 is_end_record end_record_from
    find_end_record read_end_record is_end_valid read_central is_central_valid is_regular
    check_sizes read_entry read_entries read_local is_local_of descriptor_at read_descriptor
    record_end_of locate locate_all insert sort is_apart parse_directory Parse.require lift
    valid_archive_digest only_member crc32 contents_of decode_entry read_json valid_manifest
    valid_candidate has_only_keys has_exact_keys has_strings valid_producer valid_database
    valid_fingerprint valid_deployment valid_stripe valid_webhook valid_artifact valid_artifacts
    valid_replay_run valid_replay_runs valid_reports valid_origin valid_deployment_origin
    valid_provenance valid_artifact_paths valid_migration_artifacts valid_bootstrap valid_sources
    valid_artifact_evidence valid_digest valid_expectation is_valid_expected_environment
    is_candidate_of is_environment_of parse_document parse_evidence_archive
runs = 0

abbrev members : List Member
unfolding runs
members = ok_of (parse_directory archive) refl

parse_directory-ne_fault_example : parse_directory archive ≢ fault out_of_range
parse_directory-ne_fault_example = parse_directory-ne_fault archive out_of_range

parse_directory-IsDirectory_example : IsDirectory archive members
unfolding runs
parse_directory-IsDirectory_example = parse_directory-IsDirectory archive refl

abbrev evidence : Evidence
unfolding runs
evidence = accepted_of (parse_evidence_archive platform (some archive) archive_digest expected) refl

parse_evidence_archive-IsEvidence_example :
    IsEvidence platform (some archive) archive_digest expected evidence
unfolding runs
parse_evidence_archive-IsEvidence_example =
    parse_evidence_archive-IsEvidence platform (some archive) archive_digest expected refl
