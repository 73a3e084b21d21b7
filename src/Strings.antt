-- ===== src/Strings.antt =====
-- src/lib/string.c: copies, comparisons and searches on memory, by bytes and by 16-bit characters.
-- A memory is a function from the index to the element there: a byte, or for the `wcs` functions a
-- 16-bit character. Pointers are indices, and do not wrap around; a pointer result is an index and
-- NULL is `none`. The loops that run to a terminator are on fuel: `none` if it runs out.
pub mod Copy
pub mod Compare
pub mod Text
pub mod Bounded
pub mod Find
mod Tests
use rayos.Base.{
  ℕ, zero, suc, ◌+◌, ◌-◌, ◌%◌, Bool, true, false, ◌&&◌, Option, none, some, ltb, leb, ◌==◌,
  if◌then◌else◌, update, ℤ, pos, negsuc, not,
}

abbrev pub Memory : Type 0
Memory = ℕ → ℕ

-- `while (n--) *d++ = *s++;`
unfoldable pub memcpy : Memory → ℕ → ℕ → ℕ → Memory
memcpy mem d s zero = mem
memcpy mem d s (suc n) = memcpy (update mem d (mem s)) (d + 1) (s + 1) n

unfoldable pub memset : Memory → ℕ → ℕ → ℕ → Memory
memset mem p c zero = mem
memset mem p c (suc n) = memset (update mem p (c % 256)) (p + 1) c n

-- `while (n--) *--d = *--s;`, where d and s are the starts and n elements are left.
unfoldable pub copy_back : Memory → ℕ → ℕ → ℕ → Memory
copy_back mem d s zero = mem
copy_back mem d s (suc n) = copy_back (update mem (d + n) (mem (s + n))) d s n

unfoldable pub memmove : Memory → ℕ → ℕ → ℕ → Memory
unfolding memcpy copy_back
memmove mem dest src n = if ltb dest src then memcpy mem dest src n else copy_back mem dest src n

-- `a - b` of two elements, as an `int`
abbrev pub difference : ℕ → ℕ → ℤ
difference a b = if leb b a then pos (a - b) else negsuc (b - a - 1)

unfoldable pub memcmp : Memory → ℕ → ℕ → ℕ → ℤ
memcmp mem a b zero = pos 0
memcmp mem a b (suc n) =
    let rest = memcmp mem (a + 1) (b + 1) n in
    if mem a == mem b then rest else difference (mem a) (mem b)

-- `while (*p) p++;`: where the loop ends.
unfoldable pub skip : ℕ → Memory → ℕ → Option ℕ
skip zero mem p = none
skip (suc fuel) mem p = let rest = skip fuel mem (p + 1) in if mem p == 0 then some p else rest

-- `p - s`.
unfoldable pub strlen : ℕ → Memory → ℕ → Option ℕ
unfolding skip
strlen fuel mem s = elim (skip fuel mem s) [ none ↦ none | some p ↦ some (p - s) ]

-- `while ((*dest++ = *src++) != '\0');`.
unfoldable pub strcpy : ℕ → Memory → ℕ → ℕ → Option Memory
strcpy zero mem dest src = none
strcpy (suc fuel) mem dest src =
    let new = update mem dest (mem src) in
    let rest = strcpy fuel new (dest + 1) (src + 1) in if mem src == 0 then some new else rest

-- `while (n--) *dest++ = '\0';`
unfoldable pub fill_zero : Memory → ℕ → ℕ → Memory
fill_zero mem dest zero = mem
fill_zero mem dest (suc n) = fill_zero (update mem dest 0) (dest + 1) n

-- The first loop copies the terminator without counting it, and the second one fills the n elements
-- that are left.
unfoldable pub strncpy : Memory → ℕ → ℕ → ℕ → Memory
unfolding fill_zero
strncpy mem dest src zero = mem
strncpy mem dest src (suc n) =
    let new = update mem dest (mem src) in
    let rest = strncpy new (dest + 1) (src + 1) n in
    if mem src == 0 then fill_zero new (dest + 1) (suc n) else rest

unfoldable pub strcmp : ℕ → Memory → ℕ → ℕ → Option ℤ
strcmp zero mem s1 s2 = none
strcmp (suc fuel) mem s1 s2 =
    let rest = strcmp fuel mem (s1 + 1) (s2 + 1) in
    if not (mem s1 == 0) && (mem s1 == mem s2) then rest else some (difference (mem s1) (mem s2))

unfoldable pub strncmp : Memory → ℕ → ℕ → ℕ → ℤ
strncmp mem s1 s2 zero = pos 0
strncmp mem s1 s2 (suc n) =
    let rest = strncmp mem (s1 + 1) (s2 + 1) n in
    if not (mem s1 == 0) && (mem s1 == mem s2) then rest else difference (mem s1) (mem s2)

-- The loop of `strchr` and `wcschr`. The outer `none` is fuel that ran out, the inner one is NULL.
unfoldable pub find_char : ℕ → Memory → ℕ → ℕ → Bool → Option (Option ℕ)
find_char zero mem s c at_end = none
find_char (suc fuel) mem s c at_end =
    let rest = find_char fuel mem (s + 1) c at_end in
    if mem s == 0
    then some (if at_end then some s else none)
    else if mem s == c
    then some (some s)
    else rest

-- The loop compares with `(char)c`, the test behind it with c.
unfoldable pub strchr : ℕ → Memory → ℕ → ℕ → Option (Option ℕ)
unfolding find_char
strchr fuel mem s c = find_char fuel mem s (c % 256) (c == 0)

unfoldable pub wcschr : ℕ → Memory → ℕ → ℕ → Option (Option ℕ)
unfolding find_char
wcschr fuel mem s c = find_char fuel mem s c (c == 0)

-- The loop of `strrchr` and `wcsrchr`.
unfoldable pub last_loop : ℕ → Memory → ℕ → ℕ → Option ℕ → Option (Option ℕ)
last_loop zero mem s c last = none
last_loop (suc fuel) mem s c last =
    let seen = if mem s == c then some s else last in
    let rest = last_loop fuel mem (s + 1) c seen in if mem s == 0 then some seen else rest

unfoldable pub strrchr : ℕ → Memory → ℕ → ℕ → Option (Option ℕ)
unfolding last_loop
strrchr fuel mem s c = last_loop fuel mem s (c % 256) none

unfoldable pub wcsrchr : ℕ → Memory → ℕ → ℕ → Option (Option ℕ)
unfolding last_loop
wcsrchr fuel mem s c = last_loop fuel mem s c none

-- The loop of `wcslcpy` and the terminator behind it, with `room` elements before the last one: the
-- memory, and how many elements were copied.
unfoldable pub copy_bounded : Memory → ℕ → ℕ → ℕ → ℕ → Memory × ℕ
copy_bounded mem dst src zero len = (update mem dst 0, len)
copy_bounded mem dst src (suc room) len =
    let rest = copy_bounded (update mem dst (mem src)) (dst + 1) (src + 1) room (len + 1) in
    if mem src == 0 then (update mem dst 0, len) else rest

-- `while (*src++) len++;` behind the elements that were copied.
unfoldable pub count_rest : ℕ → ℕ → Memory × ℕ → Option (Memory × ℕ)
unfolding skip
count_rest fuel src (mem, len) = elim (skip fuel mem (src + len)) [
  | none ↦ none
  | some p ↦ some (mem, len + (p - (src + len)))
]

unfoldable pub wcslcpy : ℕ → Memory → ℕ → ℕ → ℕ → Option (Memory × ℕ)
unfolding copy_bounded count_rest
wcslcpy fuel mem dst src size =
    count_rest fuel src (if size == 0 then (mem, 0) else copy_bounded mem dst src (size - 1) 0)

unfoldable pub wcscat : ℕ → Memory → ℕ → ℕ → Option Memory
unfolding skip strcpy
wcscat fuel mem dest src = elim (skip fuel mem dest) [
  | none ↦ none
  | some p ↦ strcpy fuel mem p src
]

-- The functions on 16-bit characters that have the text of those on bytes.
abbrev pub wcslen : ℕ → Memory → ℕ → Option ℕ
wcslen fuel mem s = strlen fuel mem s

abbrev pub wcscpy : ℕ → Memory → ℕ → ℕ → Option Memory
wcscpy fuel mem dest src = strcpy fuel mem dest src

abbrev pub wcsncpy : Memory → ℕ → ℕ → ℕ → Memory
wcsncpy mem dest src n = strncpy mem dest src n

abbrev pub wcscmp : ℕ → Memory → ℕ → ℕ → Option ℤ
wcscmp fuel mem s1 s2 = strcmp fuel mem s1 s2

abbrev pub wcsncmp : Memory → ℕ → ℕ → ℕ → ℤ
wcsncmp mem s1 s2 n = strncmp mem s1 s2 n
