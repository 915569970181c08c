-- ===== src/Logger.antt =====
-- common/logger/Logger.hpp: the lines of the log file. What `fopen`, `strftime` and the last `fprintf`
-- make is an argument.
mod Tests
use simple_messenger.Prelude.{
  ◌∙◌, append-nil, sym, ap, ℕ, ◌+◌, ◌-◌, ◌<◌, ◌≤◌, ◌≡◌, refl, Option, none, some, List, [], ◌∷◌,
  ◌++◌, codes, length, replicate, arith, append_assoc, ◌==◌, if◌then◌else◌,
}
use mathlib.Core.Option
use simple_messenger.Decimal.{to_string}

-- What has been written through the handle; `none` is a null handle.
pub record Logger : Type 0 where
  pub log_file_handle : Option (List ℕ)

-- The constructor, which empties the file where it can be opened.
unfoldable pub construct : Option (List ℕ) → Logger
construct opened = record { log_file_handle = Option.map (λ _. []) opened }

-- What `%6.d` prints: the digits, and none for 0, behind as many blanks as make it six characters.
unfoldable pub digits : ℕ → List ℕ
digits n = if n == 0 then [] else to_string n

unfoldable pub six_wide : ℕ → List ℕ
six_wide n = replicate (6 - length (digits n)) 32 ++ digits n

abbrev pub Entry : Type 0
Entry = (datestamp_str : List ℕ) × (usecs : ℕ) × (func_name : List ℕ) × List ℕ

-- The line of a call of `log`, whose last part is the formatted message.
unfoldable pub line : Entry → List ℕ
line (datestamp_str, usecs, func_name, text) =
    datestamp_str
    ++ (six_wide usecs ++ (codes ": " ++ (func_name ++ (codes ": " ++ (text ++ codes "\n")))))

-- `log`. `none` is a write through a null handle.
unfoldable pub log : Logger → Entry → Option Logger
log l entry =
    Option.map (λ file. record { log_file_handle = some (file ++ line entry) }) l.log_file_handle

unfoldable pub log_all : Logger → List Entry → Option Logger
unfolding Option.bind
log_all l [] = some l
log_all l (e ∷ es) = Option.bind (log l e) (λ l'. log_all l' es)

unfoldable pub lines : List Entry → List ℕ
lines [] = []
lines (e ∷ es) = line e ++ lines es

abbrev pub holding : List ℕ → Option Logger
holding file = some (record { log_file_handle = some file })

-- The file holds the line of each call, in their order, whichever threads make them.
pub log_all-lines :
    (file : List ℕ) (es : List Entry)
    → log_all (record { log_file_handle = some file }) es ≡ holding (file ++ lines es)
unfolding Option.bind log_all log lines
log_all-lines file [] = ap holding (sym (append-nil file))
log_all-lines file (e ∷ es) =
    log_all-lines (file ++ line e) es ∙ ap holding (append_assoc file (line e) (lines es))
