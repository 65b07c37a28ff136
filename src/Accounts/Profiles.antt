-- ===== src/Accounts/Profiles.antt =====
-- The tests on profiles and request keys in internal/store/human_auth.go, and what its digest is taken of.
use Prim.Native.Nat.{◌/◌, ◌%◌, ◌^◌}
use Prim.Native.Char.{code}
use codex_commons.Prelude.{ℕ, String, len, Bool, false, [], ◌∷◌, ◌++◌, ◌&&◌, ◌||◌, not}
use codex_commons.Prelude.Tests.{leb, ◌==◌, str_eq, if◌then◌else◌}
use codex_commons.Prelude.Lists.{length}
use codex_commons.Prelude.Bytes.{Bytes}
use codex_commons.Prelude.Text.{trim_space, to_lower, all_chars}
use codex_commons.Prelude.Int.{pos, pos_part, ltb_ℤ}
use codex_commons.Accounts.Types.{ProfileRequest, local_principal}

abbrev is_alnum : ℕ → Bool
is_alnum c = leb 0x61 c && leb c 0x7a || leb 0x30 c && leb c 0x39

abbrev is_handle_char : ℕ → Bool
is_handle_char c = is_alnum c || c == 0x2d

-- The last character passes the test, and so does the first.
unfoldable pub ends_with : (ℕ → Bool) → String → Bool
ends_with p String.[] = false
ends_with p (String.◌∷◌ c s) = let rest = ends_with p s in if str_eq s "" then p (code c) else rest

unfoldable pub starts_with : (ℕ → Bool) → String → Bool
starts_with p String.[] = false
starts_with p (String.◌∷◌ c s) = p (code c)

-- humanHandlePattern: one character, or from 3 to 64.
unfoldable pub is_handle : String → Bool
unfolding ends_with starts_with
is_handle s =
    all_chars is_handle_char s
    && starts_with is_alnum s
    && ends_with is_alnum s
    && (len s == 1 || leb 3 (len s) && leb (len s) 64)

unfoldable pub valid_human_profile : String → String → Bool
valid_human_profile display_name handle =
    leb 1 (len display_name)
    && leb (len display_name) 200
    && str_eq display_name (trim_space display_name)
    && leb 3 (len handle)
    && leb (len handle) 64
    && str_eq handle (to_lower handle)
    && is_handle handle

unfoldable pub valid_key : String → Bool
valid_key key = not (str_eq key "") && leb (len key) 200 && str_eq (trim_space key) key

-- binary.BigEndian.PutUint64
unfoldable pub put_uint64 : ℕ → Bytes
put_uint64 n =
    n / 256 ^ 7 % 256
    ∷ n / 256 ^ 6 % 256
    ∷ n / 256 ^ 5 % 256
    ∷ n / 256 ^ 4 % 256
    ∷ n / 256 ^ 3 % 256
    ∷ n / 256 ^ 2 % 256
    ∷ n / 256 % 256
    ∷ n % 256
    ∷ []

unfoldable pub write_string : (String → Bytes) → String → Bytes
write_string utf8 value = put_uint64 (length (utf8 value)) ++ utf8 value

-- What humanProfileRequestDigest writes into the hash. The base revision is not negative here.
unfoldable pub profile_request_bytes : (String → Bytes) → ProfileRequest → Bytes
unfolding write_string
profile_request_bytes utf8 q =
    write_string utf8 q.principal
    ++ put_uint64 (pos_part q.base_revision)
    ++ write_string utf8 q.display_name
    ++ write_string utf8 q.handle

unfoldable pub valid_profile_request : ProfileRequest → Bool
unfolding valid_key
valid_profile_request q =
    str_eq q.principal local_principal
    && not (ltb_ℤ q.base_revision (pos 1))
    && valid_human_profile q.display_name q.handle
    && valid_key q.idempotency_key
