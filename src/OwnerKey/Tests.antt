-- ===== src/OwnerKey/Tests.antt =====
-- apps/api/src/auth/owner-key.guard.ts: the results at concrete requests.
use soroban_dev_console.Shared.{
  ◌+◌, ◌≤◌, ◌≡◌, refl, String, false, List, [], ◌∷◌, Dict, arith, lookup, leb, if◌then◌else◌,
}
use soroban_dev_console.Workspaces.{utf16_length}
use soroban_dev_console.OwnerKey.{
  Attempt, one, absent, allowed, weak_key, too_many, can_activate, check_key, any_char, all_chars,
  same_word, is_word_of, is_blank, is_repeated, is_forbidden,
}
use soroban_dev_console.OwnerKey.Weakness.{is_forbidden_never}
use soroban_dev_console.OwnerKey.Attempts.{Request, failures, after, failures_bounded}

abbrev as_is : String → String
as_is s = s

abbrev predictable : String
predictable = "Password1Password1Password1Password1"

predictable_allowed : check_key as_is (one predictable) ≡ allowed predictable
unfolding check_key utf16_length any_char all_chars same_word is_word_of is_blank is_repeated
    is_forbidden
predictable_allowed = refl

short_weak : check_key as_is (one "Password1") ≡ weak_key
unfolding check_key utf16_length
short_weak = refl

is_forbidden_never_example : is_forbidden predictable ≡ false
unfolding utf16_length any_char
is_forbidden_never_example = is_forbidden_never predictable (omega arith) refl refl

abbrev attempts : Dict Attempt
attempts = ("10.0.0.1", record { count = 9; window_start = 1000 }) ∷ []

abbrev requests : List Request
requests =
    record { now = 2000; ip = "10.0.0.1"; header = absent }
    ∷ record { now = 2001; ip = "10.0.0.2"; header = absent }
    ∷ record { now = 2002; ip = "10.0.0.1"; header = one predictable }
    ∷ []

failures_bounded_example :
    (failures as_is "10.0.0.1" attempts requests ≤ 1)
    × ((can_activate as_is 2003 "10.0.0.1" (one predictable) (after as_is attempts requests)).0 ≡ (
        if leb 10 (9 + failures as_is "10.0.0.1" attempts requests)
        then too_many
        else check_key as_is (one predictable)))
unfolding lookup
failures_bounded_example =
    failures_bounded as_is attempts requests
      (record { now = 2003; ip = "10.0.0.1"; header = one predictable })
      (record { count = 9; window_start = 1000 }) refl
      (omega arith, (omega arith, (omega arith, tt))) (omega arith)
