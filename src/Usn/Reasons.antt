-- ===== src/Usn/Reasons.antt =====
-- The reason masks of the journal and the labels that a reason is decoded to.
use file_recovery_engine.Prelude.{ℕ, String, List, [], ◌∷◌, if◌then◌else◌}
use file_recovery_engine.Prelude.Checked.{has_bit}

abbrev pub reason_masks : List (ℕ × String)
reason_masks =
    (0x00000001, "data-overwrite")
    ∷ (0x00000002, "data-extend")
    ∷ (0x00000004, "data-truncation")
    ∷ (0x00000010, "named-data-overwrite")
    ∷ (0x00000020, "named-data-extend")
    ∷ (0x00000040, "named-data-truncation")
    ∷ (0x00000100, "file-create")
    ∷ (0x00000200, "file-delete")
    ∷ (0x00000400, "ea-change")
    ∷ (0x00000800, "security-change")
    ∷ (0x00001000, "rename-old-name")
    ∷ (0x00002000, "rename-new-name")
    ∷ (0x00004000, "indexable-change")
    ∷ (0x00008000, "basic-info-change")
    ∷ (0x00010000, "hard-link-change")
    ∷ (0x00020000, "compression-change")
    ∷ (0x00040000, "encryption-change")
    ∷ (0x00080000, "object-id-change")
    ∷ (0x00100000, "reparse-point-change")
    ∷ (0x00200000, "stream-change")
    ∷ (0x00400000, "transacted-change")
    ∷ (0x00800000, "integrity-change")
    ∷ (0x80000000, "close")
    ∷ []

-- The loop over the masks.
unfoldable pub labels_loop : ℕ → List (ℕ × String) → List String
labels_loop reason [] = []
labels_loop reason ((mask, name) ∷ masks) =
    let labels = labels_loop reason masks in if has_bit reason mask then name ∷ labels else labels

unfoldable pub decode_reason_labels : ℕ → List String
unfolding labels_loop
decode_reason_labels reason = labels_loop reason reason_masks
