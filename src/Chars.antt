-- ===== src/Chars.antt =====
-- Bytes as C text. A `char *` is the list of its bytes before the NUL; <ctype.h> is that of the
-- "C" locale.
pub mod Laws
use Prim.Native.Char.{code}
use Prim.Native.String.{String}
use central_uart.Prelude.{
  ℕ, zero, suc, ◌+◌, ◌-◌, Bool, true, false, ◌&&◌, ◌||◌, List, [], ◌∷◌, leb, ◌==◌, if◌then◌else◌,
  length, get_or, take,
}

abbrev pub Text : Type 0
Text = List ℕ

-- The bytes of an ASCII literal.
abbrev pub ascii : String → Text
ascii String.[] = []
ascii (String.◌∷◌ c s) = code c ∷ ascii s

abbrev pub within : ℕ → ℕ → ℕ → Bool
within lo hi c = leb lo c && leb c hi

unfoldable pub isspace : ℕ → Bool
isspace c = c == 32 || within 9 13 c

unfoldable pub isxdigit : ℕ → Bool
isxdigit c = within b'0' b'9' c || within b'A' b'F' c || within b'a' b'f' c

unfoldable pub toupper : ℕ → ℕ
toupper c = if within b'a' b'z' c then c - 32 else c

unfoldable pub tolower : ℕ → ℕ
tolower c = if within b'A' b'Z' c then c + 32 else c

-- What a buffer holds as text: its bytes before the first NUL.
abbrev pub until_nul : List ℕ → Text
until_nul [] = []
until_nul (c ∷ cs) = if c == 0 then [] else c ∷ until_nul cs

-- `while (*s != 0 && isspace(*s)) s++`
unfoldable pub skip_space : Text → Text
skip_space [] = []
skip_space (c ∷ cs) = if isspace c then skip_space cs else c ∷ cs

-- `while (len > 0 && isspace(s[len - 1])) len--`, from the given length
unfoldable pub trimmed_len : Text → ℕ → ℕ
trimmed_len s zero = 0
trimmed_len s (suc k) = if isspace (get_or s k 0) then trimmed_len s k else suc k

-- `strcmp(a, b) == 0`
unfoldable pub equal : Text → Text → Bool
equal [] [] = true
equal (x ∷ xs) (y ∷ ys) = x == y && equal xs ys
equal _ _ = false

-- `snprintk(buf, size, "%s", s)` at `0 < size`: the text that is left in `buf`
abbrev pub snprintk_s : ℕ → Text → Text
snprintk_s size s = take (size - 1) s
