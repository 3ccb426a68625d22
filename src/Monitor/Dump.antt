-- ===== src/Monitor/Dump.antt =====
-- The hex dump of do_echo in tools/com_topic.cpp: the first 32 bytes of each message, in
-- hexadecimal and as characters. The line that introduces a message is left out.
use com_ipc.Common.{
  ℕ, zero, suc, ◌+◌, ◌-◌, ◌*◌, ◌/◌, ◌%◌, ◌<◌, ◌≤◌, ◌≡◌, refl, List, [], ◌∷◌, ◌++◌, map, Bool, true,
  false, ◌&&◌, ◌||◌, Option, none, some, if◌then◌else◌, ltb, leb, arith, ap, append_assoc,
}
use com_ipc.Common.Int.{pos}
use com_ipc.Common.Bytes.{AreBytes, Memory, load}
use com_ipc.Pool.{Pool, read}
use com_ipc.Subscriber
use com_ipc.Subscriber.{Subscriber, Round, Reply, LoanedMessage, receive_loaned, done, failed}

-- `std::hex << std::setw(2) << std::setfill('0') << (int)b << " "` of a byte.
abbrev pub hex_digit : ℕ → ℕ
hex_digit d = if ltb d 10 then b'0' + d else b'a' + (d - 10)

unfoldable pub hex_bytes : List ℕ → List ℕ
hex_bytes [] = []
hex_bytes (b ∷ bs) = hex_digit (b / 16) ∷ hex_digit (b % 16) ∷ b' ' ∷ hex_bytes bs

-- `char c = data[i]`: a byte from 128 on is negative as a `char`.
abbrev pub shown : ℕ → ℕ
shown b = if leb 32 b && leb b 126 then b else b'.'

abbrev pub print_size : ℕ → ℕ
print_size size = if ltb size 32 then size else 32

-- The bytes that are printed, in hexadecimal, the dots behind a longer message, and the characters.
unfoldable pub dump_bytes : Bool → List ℕ → List ℕ
unfolding hex_bytes
dump_bytes is_longer bytes =
    hex_bytes bytes
    ++ ((if is_longer then b'.' ∷ b'.' ∷ b'.' ∷ b' ' ∷ [] else [])
        ++ (b' ' ∷ b'|' ∷ b' ' ∷ (map shown bytes ++ (b'\n' ∷ []))))

-- The dump of a message: `data[i]` is read in the pool.
unfoldable pub dump : Pool → LoanedMessage → List ℕ
unfolding dump_bytes
dump pool msg = dump_bytes (ltb 32 msg.size) (read msg.pointer (print_size msg.size) pool)

-- The loop of `do_echo` for the outcome of `receiveLoaned`, before the rest of it.
abbrev pub echoed :
    Pool → (Subscriber → List (List ℕ)) → Reply (Subscriber × Option LoanedMessage) → List (List ℕ)
echoed pool rest (done (sub, some msg)) = dump pool msg ∷ rest sub
echoed pool rest (done (sub, none)) = rest sub
echoed pool rest (failed e) = []
echoed pool rest Subscriber.blocked = []

-- The loop of `do_echo`: the dumps that it prints.
unfoldable pub echo_loop : List Round → Subscriber → List (List ℕ)
unfolding dump
echo_loop [] sub = []
echo_loop (r ∷ rs) sub =
    if r.running
    then echoed r.scene.pool (echo_loop rs) (receive_loaned sub (pos 1000) r.scene)
    else []

-- Reading a dump back: pairs of hexadecimal digits, as long as there are any.
abbrev pub of_digit : ℕ → ℕ
of_digit c = if leb b'a' c then c - b'a' + 10 else c - b'0'

abbrev pub is_digit : ℕ → Bool
is_digit c = (leb b'0' c && leb c b'9') || (leb b'a' c && leb c b'f')

unfoldable pub undump : List ℕ → List ℕ
undump (h ∷ l ∷ s ∷ rest) =
    let bytes = undump rest in
    if is_digit h && is_digit l then (16 * of_digit h + of_digit l) ∷ bytes else []
undump _ = []

of_digit-hex_digit :
    (d : ℕ) → d < 16 → (is_digit (hex_digit d) ≡ true) × (of_digit (hex_digit d) ≡ d)
of_digit-hex_digit d h = ground arith

undump-hex_bytes :
    (bytes rest : List ℕ)
    → AreBytes bytes
    → undump rest ≡ []
    → undump (hex_bytes bytes ++ rest) ≡ bytes
unfolding undump hex_bytes
undump-hex_bytes [] rest v e = e
undump-hex_bytes (b ∷ bytes) rest v e =
    let (d, f) = of_digit-hex_digit (b / 16) (omega (arith, v.0)) in
    let (d', f') = of_digit-hex_digit (b % 16) (omega arith) in
    let ih = undump-hex_bytes bytes rest v.1 e in
    rw (d, d', f, f', ih) (ap (λ x. x ∷ bytes) (omega arith))

-- A character of a terminal that is not a control character.
abbrev pub IsPrintable : ℕ → Type 0
IsPrintable c = (32 ≤ c) × (c ≤ 126)

abbrev pub ArePrintable : List ℕ → Type 0
ArePrintable [] = Unit {0}
ArePrintable (c ∷ cs) = IsPrintable c × ArePrintable cs

append-ArePrintable : (xs ys : List ℕ) → ArePrintable xs → ArePrintable ys → ArePrintable (xs ++ ys)
append-ArePrintable [] ys v w = w
append-ArePrintable (x ∷ xs) ys v w = (v.0, append-ArePrintable xs ys v.1 w)

hex_bytes-ArePrintable : (bytes : List ℕ) → AreBytes bytes → ArePrintable (hex_bytes bytes)
unfolding hex_bytes
hex_bytes-ArePrintable [] v = tt
hex_bytes-ArePrintable (b ∷ bytes) v = (
  digit (b / 16) (omega (arith, v.0)),
  (digit (b % 16) (omega arith), (omega arith, hex_bytes-ArePrintable bytes v.1)),
)
  where
    digit : (d : ℕ) → d < 16 → IsPrintable (hex_digit d)
    digit d h = ground arith

map-ArePrintable : (bytes : List ℕ) → ArePrintable (map shown bytes)
map-ArePrintable [] = tt
map-ArePrintable (b ∷ bytes) = (ground arith, map-ArePrintable bytes)

load-AreBytes : (m : Memory) (at n : ℕ) → ((a : ℕ) → m a < 256) → AreBytes (load m at n)
unfolding load
load-AreBytes m at zero h = tt
load-AreBytes m at (suc n) h = (h at, load-AreBytes m (at + 1) n h)

-- What stands behind the bytes, without the newline.
abbrev tail : Bool → List ℕ → List ℕ
tail is_longer bytes =
    (if is_longer then b'.' ∷ b'.' ∷ b'.' ∷ b' ' ∷ [] else [])
    ++ (b' ' ∷ b'|' ∷ b' ' ∷ map shown bytes)

dump_bytes-tail :
    (is_longer : Bool) (bytes : List ℕ)
    → dump_bytes is_longer bytes ≡ (hex_bytes bytes ++ tail is_longer bytes) ++ b'\n' ∷ []
unfolding dump_bytes
dump_bytes-tail true bytes = simp append_assoc
dump_bytes-tail false bytes = simp append_assoc

tail-ArePrintable : (is_longer : Bool) (bytes : List ℕ) → ArePrintable (tail is_longer bytes)
tail-ArePrintable true bytes =
    append-ArePrintable (b'.' ∷ b'.' ∷ b'.' ∷ b' ' ∷ b' ' ∷ b'|' ∷ b' ' ∷ []) (map shown bytes)
      (omega arith) (map-ArePrintable bytes)
tail-ArePrintable false bytes =
    append-ArePrintable (b' ' ∷ b'|' ∷ b' ' ∷ []) (map shown bytes) (omega arith)
      (map-ArePrintable bytes)

undump-dump_bytes :
    (is_longer : Bool) (bytes : List ℕ)
    → AreBytes bytes
    → undump (dump_bytes is_longer bytes) ≡ bytes
unfolding dump_bytes undump
undump-dump_bytes true bytes v = undump-hex_bytes bytes _ v refl
undump-dump_bytes false bytes v = undump-hex_bytes bytes _ v (behind_bar (map shown bytes))
  where
    behind_bar : (cs : List ℕ) → undump (b' ' ∷ b'|' ∷ b' ' ∷ (cs ++ b'\n' ∷ [])) ≡ []
    behind_bar cs = refl

-- The dump of a message in a pool of bytes reads back as the first 32 bytes of the message, or as
-- all of a shorter one; it is one line: printable characters and the newline that ends it.
pub undump-dump :
    (pool : Pool) (msg : LoanedMessage)
    → ((a : ℕ) → pool.bytes a < 256)
    → (undump (dump pool msg) ≡ read msg.pointer (print_size msg.size) pool)
      × ((line : List ℕ) × (dump pool msg ≡ line ++ b'\n' ∷ []) × ArePrintable line)
unfolding dump
undump-dump pool msg h =
    let bytes = read msg.pointer (print_size msg.size) pool in
    let longer = ltb 32 msg.size in
    let v = load-AreBytes pool.bytes msg.pointer (print_size msg.size) h in
    let printable : ArePrintable (hex_bytes bytes ++ tail longer bytes) =
      append-ArePrintable (hex_bytes bytes) (tail longer bytes) (hex_bytes-ArePrintable bytes v)
        (tail-ArePrintable longer bytes) in
    (
      undump-dump_bytes longer bytes v,
      (hex_bytes bytes ++ tail longer bytes, dump_bytes-tail longer bytes, printable),
    )
