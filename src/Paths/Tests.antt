-- ===== src/Paths/Tests.antt =====
-- Runs of the path functions at fixed inputs.
use fmon.Base.{◌≡◌, refl, ◌≢◌, inr, true, false, [], Text, bytes, text_eq, trim_right}
use fmon.Paths.{separator, within, overlaps}
use fmon.Paths.Clean.{clean}
use fmon.Paths.Disjoint.{overlaps_of_shared}
use fmon.Paths.Trimmed.{IsTrimmed}

clean_dots : clean (bytes "/a//b/./../c/") ≡ bytes "/a/c"
unfolding clean text_eq
clean_dots = refl

clean_root : clean (bytes "/..") ≡ bytes "/"
unfolding clean text_eq
clean_root = refl

clean_relative : clean (bytes "../a/..") ≡ bytes ".."
unfolding clean text_eq
clean_relative = refl

within_root : within (bytes "/a") (bytes "/") ≡ true
unfolding within text_eq trim_right
within_root = refl

within_sibling : within (bytes "/ab") (bytes "/a") ≡ false
unfolding within text_eq trim_right
within_sibling = refl

trimmed : (p : Text) → trim_right separator p ≡ p → p ≢ [] → IsTrimmed p
trimmed p e n = inr (e, n)

overlaps_of_shared_example : overlaps (bytes "/a") (bytes "/a/b") ≡ true
overlaps_of_shared_example =
    overlaps_of_shared (bytes "/a/b/c") (bytes "/a") (bytes "/a/b")
      (trimmed (bytes "/a") (unfold trim_right in refl) (λ e. cc))
      (trimmed (bytes "/a/b") (unfold trim_right in refl) (λ e. cc))
      (unfold within text_eq trim_right in refl) (unfold within text_eq trim_right in refl)
