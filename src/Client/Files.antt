-- ===== src/Client/Files.antt =====
-- Which files the client accepts, and which promotions it commits.
use promptnet.Client.{
  PromptFile, derive_slots, path_to_uri, check_file, validate_all, committed, promote_valid,
  promote, prompt-derive_slots,
}
use promptnet.Prelude.{
  ◌≡◌, ◌≢◌, ◌↔◌, refl, false, none, List, [], ◌∷◌, Str, str_eq, equal_iff, arith,
}
use promptnet.Prelude.Text.{is_blank, trim_left, space_more}
use promptnet.Validate.{prompt-iff-Accepted}

path_to_uri-is_blank : (p : Str) → is_blank (path_to_uri p) ≡ false
unfolding path_to_uri is_blank trim_left space_more
path_to_uri-is_blank p = refl

check_file_iff : (f : PromptFile) → (check_file f ≡ none) ↔ (is_blank f.content ≡ false)
unfolding check_file
check_file_iff f = (
  (λ e.
      ((prompt-iff-Accepted (path_to_uri f.path) f.content (derive_slots f.content)).0
        e).template_written),
  λ e. prompt-derive_slots (path_to_uri f.path) f.content (path_to_uri-is_blank f.path) e,
)

abbrev pub AllWritten : List PromptFile → Type 0
AllWritten [] = Unit
AllWritten (f ∷ files) = (is_blank f.content ≡ false) × AllWritten files

-- `validateAll` finds nothing to refuse exactly if every file holds more than white space: slots
-- and URI are derived, and never the reason.
pub validate_all-iff-AllWritten :
    (files : List PromptFile) → (validate_all files ≡ 0) ↔ AllWritten files
unfolding validate_all check_file
validate_all-iff-AllWritten [] = ((λ e. tt), λ a. refl)
validate_all-iff-AllWritten (f ∷ files) =
    let rest = validate_all-iff-AllWritten files in
    let one : (check_file f ≡ none) ↔ (is_blank f.content ≡ false) = check_file_iff f in
    ground (arith, rest, one)

-- `promote` goes on to write and commit exactly if the prompt is there, differs from what the target
-- branch has, and holds more than white space.
pub promote_iff :
    (path content target : Str)
    → (promote path content target ≡ committed)
      ↔ ((content ≢ []) × (content ≢ target) × (is_blank content ≡ false))
unfolding promote promote_valid
promote_iff path content target = ground (
  arith,
  equal_iff content [],
  equal_iff content target,
  check_file_iff (record { path = path; content = content }),
)
