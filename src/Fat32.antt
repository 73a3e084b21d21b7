-- ===== src/Fat32.antt =====
-- src/fs/fat32.c: the names of FAT32's directory entries, short and long.
-- A C string is the list of its bytes before the terminator, and NULL is `none`. A short name is a
-- function of eleven bytes.
pub mod Bytes
pub mod Chain
pub mod Cluster
pub mod Alloc
pub mod Names
pub mod Parent
pub mod Read
pub mod Tests
use Prim.Native.Nat.{bit_and}
use rayos.Base.{
  ℕ, zero, suc, ◌+◌, ◌-◌, ◌*◌, ◌/◌, ◌%◌, ◌^◌, Bool, true, false, not, ◌&&◌, ◌||◌, Option, none,
  some, ◌==◌, ltb, leb, if◌then◌else◌, List, [], ◌∷◌, ◌++◌, length, update, ℤ, pos, negsuc,
}
use rayos.Tmpfs.{slash, skip_slashes, component, after}

-- ' ' and '.'
abbrev pub space : ℕ
space = 32

abbrev pub dot : ℕ
dot = 46

-- `strrchr(text, c) != NULL`, and the text before and behind the last c, for a text that has one.
unfoldable pub has_char : ℕ → List ℕ → Bool
has_char c [] = false
has_char c (x ∷ xs) = (x == c) || has_char c xs

unfoldable pub before_last : ℕ → List ℕ → List ℕ
before_last c [] = []
before_last c (x ∷ xs) = if has_char c xs then x ∷ before_last c xs else []

unfoldable pub after_last : ℕ → List ℕ → List ℕ
after_last c [] = []
after_last c (x ∷ xs) = if has_char c xs then after_last c xs else xs

-- "/" if the last slash is the first character.
abbrev pub parent_of : List ℕ → ℤ × List ℕ
parent_of [] = (pos 0, slash ∷ [])
parent_of (c ∷ p) = (pos 0, c ∷ p)

-- The result and the parent's path.
unfoldable pub get_parent : List ℕ → ℤ × List ℕ
get_parent path =
    if leb (length path) 1
    then (pos 0, slash ∷ [])
    else (if not (has_char slash path)
        then (negsuc 0, path)
        else parent_of (before_last slash path))

-- The characters that the loop of `utf16_to_ascii` writes.
unfoldable pub utf16_to_ascii : List ℕ → ℕ → List ℕ
utf16_to_ascii [] max_len = []
utf16_to_ascii (ch ∷ rest) zero = []
utf16_to_ascii (ch ∷ rest) (suc n) = (if leb ch 0x7f then ch else 63) ∷ utf16_to_ascii rest n

unfoldable pub ascii_to_utf16 : List ℕ → ℕ → List ℕ
ascii_to_utf16 [] max_chars = []
ascii_to_utf16 (ch ∷ rest) zero = []
ascii_to_utf16 (ch ∷ rest) (suc n) = ch ∷ ascii_to_utf16 rest n

-- The bytes from i on, up to a space, with `n` rounds left.
unfoldable pub sfn_part : ℕ → ℕ → (ℕ → ℕ) → List ℕ
sfn_part zero i sfn = []
sfn_part (suc n) i sfn = if sfn i == space then [] else sfn i ∷ sfn_part n (i + 1) sfn

unfoldable pub sfn_to_ascii : (ℕ → ℕ) → List ℕ
sfn_to_ascii sfn = sfn_part 8 0 sfn ++ (if sfn 8 == space then [] else dot ∷ sfn_part 3 8 sfn)

unfoldable pub toupper : ℕ → ℕ
toupper c = if leb 97 c && leb c 122 then c - 32 else c

-- The loops that write characters, each changed by f, from index i on.
unfoldable pub put : (ℕ → ℕ) → ℕ → List ℕ → (ℕ → ℕ) → ℕ → ℕ
put f i [] sfn = sfn
put f i (c ∷ cs) sfn = put f (i + 1) cs (update sfn i (f c))

-- `memset(sfn, ' ', 11)`
abbrev pub blank : ℕ → ℕ
blank i = space

-- A character of the alias: in upper case, and '_' for ' '.
abbrev pub alias_char : ℕ → ℕ
alias_char c = if toupper c == space then 95 else toupper c

abbrev pub take : ℕ → List ℕ → List ℕ
take zero xs = []
take (suc n) [] = []
take (suc n) (x ∷ xs) = x ∷ take n xs

-- The part of a name before its last dot, and the part behind it.
abbrev pub base_of : List ℕ → List ℕ
base_of name = if has_char dot name then before_last dot name else name

abbrev pub ext_of : List ℕ → List ℕ
ext_of name = if has_char dot name then after_last dot name else []

-- The result, 1 if a long name is needed, and the short name.
unfoldable pub ascii_to_sfn : List ℕ → ℤ × (ℕ → ℕ)
ascii_to_sfn name =
    let base : List ℕ = base_of name in
    let ext : List ℕ = ext_of name in
    if ltb 8 (length base) || ltb 3 (length ext)
    then (
      pos 1,
      put toupper 8 (take 3 ext)
          (update (update (put alias_char 0 (take 6 base) blank) 6 126) 7 49),
    )
    else (pos 0, put toupper 8 ext (put toupper 0 base blank))

-- At the end of the slashes: the next position and the name, or NULL at the end of the path.
abbrev pub next_name : List ℕ → Option (List ℕ × List ℕ)
next_name [] = none
next_name (c ∷ p) = some (after (c ∷ p), component (c ∷ p))

unfoldable pub path_next : List ℕ → Option (List ℕ × List ℕ)
path_next path = next_name (skip_slashes path)

-- 'A' to 'Z', '0' to '9', and sixteen signs.
unfoldable pub is_sfn_char : ℕ → Bool
is_sfn_char ch =
    (leb 65 ch && leb ch 90)
    || (leb 48 ch && leb ch 57)
    || (ch == 36)
    || (ch == 37)
    || (ch == 39)
    || (ch == 45)
    || (ch == 95)
    || (ch == 64)
    || (ch == 126)
    || (ch == 96)
    || (ch == 33)
    || (ch == 40)
    || (ch == 41)
    || (ch == 123)
    || (ch == 125)
    || (ch == 94)
    || (ch == 35)
    || (ch == 38)

-- The loop of `fat32_need_lfn` over the characters.
unfoldable pub needs_loop : List ℕ → Bool
needs_loop [] = false
needs_loop (ch ∷ rest) =
    if ch == dot
    then needs_loop rest
    else (if leb 97 ch && leb ch 122
        then true
        else (if ltb 0x7f ch
            then true
            else (if not (is_sfn_char ch) then true else needs_loop rest)))

unfoldable pub need_lfn : List ℕ → Bool
need_lfn [] = true
need_lfn (c ∷ cs) =
    let name : List ℕ = c ∷ cs in
    let base : ℕ = length (base_of name) in
    if has_char dot name && (base == 0)
    then true
    else (if ltb 8 base
        then true
        else (if ltb 3 (length (ext_of name)) then true else needs_loop name))

-- The loop of `fat32_lfn_checksum` at i, with `n` rounds left.
unfoldable pub checksum_loop : ℕ → ℕ → ℕ → (ℕ → ℕ) → ℕ
checksum_loop zero i sum sfn = sum
checksum_loop (suc n) i sum sfn =
    checksum_loop n (i + 1) ((bit_and sum 1 * 2 ^ 7 + sum / 2 + sfn i) % 2 ^ 8) sfn

unfoldable pub lfn_checksum : (ℕ → ℕ) → ℕ
unfolding checksum_loop
lfn_checksum sfn = checksum_loop 11 0 0 sfn

-- ATTR_DIRECTORY and the first bytes of the name.
unfoldable pub is_dot : ℕ → (ℕ → ℕ) → Bool
is_dot attr name = not (bit_and attr 0x10 == 0) && ((name 0 == dot) && (name 1 == space))

unfoldable pub is_dotdot : ℕ → (ℕ → ℕ) → Bool
is_dotdot attr name =
    not (bit_and attr 0x10 == 0) && ((name 0 == dot) && ((name 1 == dot) && (name 2 == space)))
