-- ===== src/Keyboard.antt =====
-- kernel/keyboard.cc: the line that is typed on the keyboard, and the system calls of kernel/sys.cc
-- that the shell reads it with. The ports are parameters: the scan code is the argument of the handler.
pub mod Keys
pub mod Laws
use osfinal_project.Prelude.{
  ℕ, zero, suc, ◌+◌, ◌-◌, Bool, true, false, Option, none, some, List, [], ◌∷◌, ◌++◌, ltb, ◌==◌,
  ◌!=◌, if◌then◌else◌, update,
}
use osfinal_project.Word.{add32}

-- `buf`, which points to fifty bytes, `bufSize` and `done`, with what has been printed.
pub record Keyboard : Type 0 where
  pub buf : ℕ → ℕ
  pub buf_size : ℕ
  pub done : Bool
  pub output : List ℕ

-- `scanCodeToLetter`; 0 is a key without a letter.
unfoldable pub scan_code_to_letter : ℕ → ℕ
scan_code_to_letter code =
    if code == 0x1e
    then b'a'
    else if code == 0x30
    then b'b'
    else if code == 0x2e
    then b'c'
    else if code == 0x20
    then b'd'
    else if code == 0x12
    then b'e'
    else if code == 0x21
    then b'f'
    else if code == 0x22
    then b'g'
    else if code == 0x23
    then b'h'
    else if code == 0x17
    then b'i'
    else if code == 0x24
    then b'j'
    else if code == 0x25
    then b'k'
    else if code == 0x26
    then b'l'
    else if code == 0x32
    then b'm'
    else if code == 0x31
    then b'n'
    else if code == 0x18
    then b'o'
    else if code == 0x19
    then b'p'
    else if code == 0x10
    then b'q'
    else if code == 0x13
    then b'r'
    else if code == 0x1f
    then b's'
    else if code == 0x14
    then b't'
    else if code == 0x16
    then b'u'
    else if code == 0x2f
    then b'v'
    else if code == 0x11
    then b'w'
    else if code == 0x2d
    then b'x'
    else if code == 0x15
    then b'y'
    else if code == 0x2c
    then b'z'
    else if code == 0x1c
    then 0x0a
    else if code == 0x39
    then b' '
    else if code == 0x35
    then b'/'
    else if code == 0x34
    then b'.'
    else if code == 0x2b
    then 0x7c
    else 0

-- `new char[50]`
abbrev pub buf_places : ℕ
buf_places = 50

-- `keyBoardHandler`, for a scan code that the port delivers. The source does not check the index: a write behind
-- the buffer is `none`.
pub handler : Keyboard → ℕ → Option Keyboard
handler k code =
    let letter = scan_code_to_letter code in
    let output = k.output ++ (letter ∷ []) in
    let fits = ltb k.buf_size buf_places in
    if letter == 0
    then some k
    else if letter == 0x0a
    then (if fits
        then some (record k { buf = update k.buf k.buf_size 0; done = true; output = output })
        else none)
    else if fits
    then some (record k {
      buf = update k.buf k.buf_size letter;
      buf_size = add32 k.buf_size 1;
      output = output;
    })
    else none

-- The loop of system call 20: `n` bytes from index `i` on become NUL.
clear_loop : (ℕ → ℕ) → ℕ → ℕ → ℕ → ℕ
clear_loop buf i zero = buf
clear_loop buf i (suc n) = clear_loop (update buf i 0) (i + 1) n

-- System call 20.
pub clear : Keyboard → Keyboard
unfolding clear_loop
clear k = record k { buf = clear_loop k.buf 0 k.buf_size; buf_size = 0; done = false }
