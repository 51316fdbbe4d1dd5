-- ===== src/Process/Execute/Command.antt =====
-- The command line of `execute`: its name and argument, and the tests on the program that it names.
use illinix_os.Base.{
  ℕ, ◌+◌, Bool, true, false, ◌||◌, ◌&&◌, Option, none, some, List, [], ◌∷◌, ◌==◌, leb,
  if◌then◌else◌, ◌>>=◌, length, take, drop,
}
use illinix_os.Libc.{strlen, strncmp}

-- The loop that cuts the name of the program off the command: the bytes before the first NUL, line
-- feed or space, in the `len` bytes of the command.
abbrev pub ends_name : ℕ → Bool
ends_name c = c == 0 || (c == 0x0A || c == 0x20)

unfoldable pub filename_of : List ℕ → List ℕ
filename_of [] = []
filename_of (c ∷ command) = if ends_name c then [] else c ∷ filename_of command

-- The name and the argument of a command; `none` for the argument is `arg_exist = 0`.
pub record Parsed : Type 0 where
  pub filename : List ℕ
  pub argument : Option (List ℕ)

-- The parsing in `execute`: a name or an argument that does not fit into 128 bytes with its NUL
-- overruns the stack.
unfoldable pub parse_command : List ℕ → Option Parsed
unfolding filename_of
parse_command command = strlen command >>= λ len.
    let text = take len command in
    let filename = filename_of text in
    let filename_len = length filename in
    if leb 128 filename_len
    then none
    else if filename_len == len
    then some (record { filename = filename; argument = none })
    else let argument = drop (filename_len + 1) text in
      if leb 128 (length argument)
      then none
      else some (record { filename = filename; argument = some argument })

-- `elf_magic`.
abbrev pub elf_magic : List ℕ
elf_magic = 0x7F ∷ 0x45 ∷ 0x4C ∷ 0x46 ∷ []

-- The loop that compares the first four bytes of the file; `true` is `nonexec_flag = 0`.
abbrev pub is_executable : List ℕ → List ℕ → Bool
is_executable [] [] = true
is_executable (b ∷ bs) (m ∷ ms) = (b == m) && is_executable bs ms
is_executable bs ms = false

-- The hook at the start of `execute`: a command that begins "hello" or "counter" so far as it goes.
abbrev pub hello : List ℕ
hello = 0x68 ∷ 0x65 ∷ 0x6C ∷ 0x6C ∷ 0x6F ∷ 0 ∷ []

abbrev pub counter : List ℕ
counter = 0x63 ∷ 0x6F ∷ 0x75 ∷ 0x6E ∷ 0x74 ∷ 0x65 ∷ 0x72 ∷ 0 ∷ []

-- `strncmp(…)==0||strncmp(…)==0`: the second is not called if the first is 0.
abbrev pub is_hello : List ℕ → ℕ → Option Bool
is_hello command len = strncmp command hello len >>= λ a.
    if a == 0 then some true else (strncmp command counter len >>= λ b. some (b == 0))

-- "shell".
abbrev pub shell : List ℕ
shell = 0x73 ∷ 0x68 ∷ 0x65 ∷ 0x6C ∷ 0x6C ∷ 0 ∷ []
