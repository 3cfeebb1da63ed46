-- ===== src/Lib.antt =====
-- A verification library for the recovery engine: the parsers and decisions that turn raw bytes of
-- a damaged medium into layouts, records, reports and scores.
--
-- The program's parts and how they interact. `fr-raid` finds the layout of an array in the image
-- of one member, takes overrides from an operator, maps logical offsets to members and assesses
-- what can be recovered with members missing. `fr-ntfs` and `fr-mft` read the boot sector and the
-- file records of an NTFS volume. `fr-validator` checks carved bytes against a file format.
-- `fr-scoring` turns the evidence for a candidate, in the types of `fr-types`, into a confidence.
-- `fr-fat` scans a FAT32 or exFAT volume for deleted directory entries, and `fr-usn` parses the
-- change journal of an NTFS volume. `fr-hfs` scans an HFS+ volume for the records of deleted
-- files. `fr-session` keeps the sessions of an operator, scans the file records with `fr-ntfs` and
-- `fr-mft` into candidates, and enriches these with the journal and with hints of the log file,
-- through the interface of `fr-logfile`.
--
-- Prelude: tests, lists, outcomes, byte slices and machine integers that all parts share. A function
--   that returns `Result` and may panic has an `Outcome`: `ok`, `err`, `panic`, or `stuck` where a
--   loop of the model runs out of fuel. `Returns` says that it is neither of the last two.
-- Raid (engine/crates/fr-raid/src/lib.rs): Types; Fields, the readers and the decoders of raw
--   fields; Order, `validate_disk_order`; Detect, `detect_layout` and its four detectors; Override,
--   `apply_manual_override` and `resolve_layout_with_override`; Map, `map_logical_offset` and its
--   five mappings; Degraded, `assess_degraded_layout`. Map.Shape describes the striping apart from
--   the code: rows, columns, and the places of data, parity and mirror.
-- Mft (engine/crates/fr-mft/src/lib.rs): Types; Fields; Fixup, `apply_update_sequence_fixup`; Runs,
--   `parse_data_runs`; Attributes, the resident and non-resident forms and the names; Record,
--   `parse_mft_record`.
-- Ntfs (engine/crates/fr-ntfs/src/lib.rs): Sector, `parse_boot_sector` and the derived sizes.
-- Scoring (engine/crates/fr-types/src/lib.rs, engine/crates/fr-scoring/src/lib.rs): Types, Score.
-- Validator (engine/crates/fr-validator/src/lib.rs): Types; Fields; Text, UTF-8 and the extension;
--   Images, Archives, Media, the validators of each format; Images.Chunks describes the chunks of
--   a PNG apart from the code, Text.Extension the ways to write an extension; Carved,
--   `validate_carved_bytes_with_extension`.
-- Fat (engine/crates/fr-fat/src/lib.rs): Types; Boot, `parse_boot_sector` for both kinds of volume;
--   Chain, the FAT entries and `collect_cluster_chain`; Names; Scan, `quick_scan_deleted_root_entries`
--   with Scan.Queue, the directories that wait, Scan.Fat32 and Scan.ExFat. Scan.Fat32.Reached and
--   Scan.ExFat.Reached describe the directories of a volume and their entries, Chain.Links its
--   chains, as relations over the bytes and the FAT entries that the code's readers give.
-- Hfs (engine/crates/fr-hfs/src/lib.rs): Types; Header, `parse_volume_header`; Tombstone, the record
--   of a deleted file; Scan, `scan_deleted_candidates`. Scan.Kept says when two candidates differ.
-- Usn (engine/crates/fr-usn/src/lib.rs): Types; Reasons, `decode_reason_labels`; Parse,
--   `parse_usn_records`; Encode, the journal's bytes for given records.
-- Session (engine/crates/fr-session/src/lib.rs, engine/crates/fr-logfile/src/lib.rs): Types;
--   Candidate, `build_candidate`; Paths, `reconstruct_paths`; Order, the sort of the candidates;
--   Paths.Ancestors and Order.Sorted describe paths and order apart from the code; Scan,
--   `quick_scan_ntfs_metadata`; Usn, `enrich_candidates_with_usn_records` with Usn.Index and
--   Usn.Match; Logfile, `apply_logfile_correlation`; Maps, the hash maps; Orchestrator,
--   `SessionOrchestrator`.
-- The module Tests of each part has concrete inputs.
--
-- Integers are natural numbers with the checked, saturating and wrapping operations of the source
-- written out; `usize` has 64 bits. A read out of range is a panic. A byte slice has at most
-- `isize::MAX` bytes (`IsSlice`) and elements below 256 (`IsByte`) where a theorem needs it.
--
-- Loops with a cursor run on fuel: one unit for each byte of the mapping pairs, of the used part
-- of a record, of a PNG or of a FLAC file. A round takes a byte at least, so this is enough, and
-- the theorems on these loops show that `stuck` does not occur. So do the loops over the records
-- of the journal, over the sets of an exFAT directory and over an HFS+ image. The loop over the
-- directories of a FAT volume has fuel for each byte of the image: no directory is read twice, and
-- one is read only if the FAT entry of its first cluster lies in the image.
--
-- Not modelled: two divisions in floating point, the percentage of the degraded assessment and the
-- printable ratio of a text, which are arguments; the quick scan over a read session; the carving,
-- snapshot and other file system crates; device access, the C interface, the user interface and
-- the scripts.
pub mod Prelude
pub mod Raid
pub mod Mft
pub mod Ntfs
pub mod Fat
pub mod Hfs
pub mod Scoring
pub mod Session
pub mod Usn
pub mod Validator
