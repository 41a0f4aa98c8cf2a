-- ===== src/Ramcloud/Meta/Laws.antt =====
-- When the pool accepts what Config::Meta makes of its attributes, and what ip_ntoa prints.
use hiredispool.Base.{
  ℕ, ◌+◌, ◌-◌, ◌*◌, ◌/◌, ◌%◌, ◌<◌, ◌≡◌, ◌≢◌, ◌↔◌, inl, inr, ◌∙◌, refl, sym, ap, subst, none, some,
  List, [], ◌∷◌, ◌++◌, List-cases, take, take-all, length, false, Bool-cases, if◌then◌else◌, ltb,
  ◌==◌, pos, ◌≤ℤ◌, All, arith,
}
use hiredispool.Config.{Endpoint, Config, accept_config}
use hiredispool.Config.Bounds.{IsUsable, IsEndpoint, accept_config_iff}
use hiredispool.Ramcloud.Meta.{Meta, to_conf, decimal, ip_ntoa}

to_conf-given :
    (m : Meta) (e : Endpoint) (es : List Endpoint)
    → m.endpoints ≡ e ∷ es
    → to_conf m ≡ record m.conf { num_endpoints = pos (length (e ∷ es)); endpoints = some (e ∷ es) }
unfolding to_conf
to_conf-given m e es h = ground arith

to_conf-empty :
    (m : Meta)
    → m.endpoints ≡ []
    → to_conf m ≡ record m.conf { num_endpoints = pos 0; endpoints = none }
unfolding to_conf
to_conf-empty m h = ground arith

-- What redis_pool_create asks of the configuration.
abbrev pub IsReady : Meta → Type 0
IsReady m = (m.endpoints ≢ []) × (m.conf.num_redis_socks ≤ℤ pos 1000) × All IsEndpoint m.endpoints

IsUsable-given :
    (m : Meta) (e : Endpoint) (es : List Endpoint)
    → m.endpoints ≡ e ∷ es
    → IsUsable (record m.conf { num_endpoints = pos (length (e ∷ es)); endpoints = some (e ∷ es) })
      ↔ IsReady m
IsUsable-given m e es h =
    let all : take (length (e ∷ es)) (e ∷ es) ≡ e ∷ es =
      take-all (length (e ∷ es)) (e ∷ es) (omega arith) in
    (
      λ u. (λ n. absurd (cc (n, h)), u.few, subst (All IsEndpoint) (all ∙ sym h) u.valid),
      λ (_, few, valid). record {
        given = (e ∷ es, refl);
        positive = omega arith;
        few = few;
        valid = subst (All IsEndpoint) (h ∙ sym all) valid;
      },
    )

to_conf-IsUsable : (m : Meta) → IsUsable (to_conf m) ↔ IsReady m
to_conf-IsUsable m = elim (List-cases m.endpoints) [
  | inl h ↦ rw (to_conf-empty m h) (λ u. absurd (cc u.given.1), λ r. absurd (r.0 h))
  | inr (e, es, h) ↦ rw (to_conf-given m e es h) (IsUsable-given m e es h)
]

-- The pool accepts the configuration of a database exactly if it has an endpoint, asks for at most 1000
-- sockets, and every endpoint has a host name and a port from 1 to 65535.
pub to_conf_accepted :
    (m : Meta) → ((k : Config) × (accept_config (to_conf m) ≡ some k)) ↔ IsReady m
to_conf_accepted m = (
  λ a. (to_conf-IsUsable m).0 ((accept_config_iff (to_conf m)).1 a),
  λ r. (accept_config_iff (to_conf m)).0 ((to_conf-IsUsable m).1 r),
)

-- The address that a text in dot notation stands for: each dot ends a byte.
abbrev pub read_address : ℕ → ℕ → List ℕ → ℕ
read_address total byte [] = total * 256 + byte
read_address total byte (c ∷ cs) =
    let next = read_address (total * 256 + byte) 0 cs in
    let more = read_address total (byte * 10 + (c - b'0')) cs in if c == b'.' then next else more

-- What a digit does to the byte that is read.
read_digit :
    (d total byte : ℕ) (rest : List ℕ)
    → d < 10
    → read_address total byte ((48 + d) ∷ rest) ≡ read_address total (byte * 10 + d) rest
read_digit d total byte rest h =
    let other : ((48 + d) == 46) ≡ false = ground arith in
    let digit : 48 + d - 48 ≡ d = omega arith in rw (other, digit) refl

read_digits_two :
    (d e total : ℕ) (rest : List ℕ)
    → d < 10
    → e < 10
    → read_address total 0 ((48 + d) ∷ (48 + e) ∷ rest) ≡ read_address total (d * 10 + e) rest
read_digits_two d e total rest h k =
    read_digit d total 0 ((48 + e) ∷ rest) h
    ∙ read_digit e total (0 * 10 + d) rest k
    ∙ ap (λ k. read_address total k rest) (omega arith)

read_digits_three :
    (c d e total : ℕ) (rest : List ℕ)
    → c < 10
    → d < 10
    → e < 10
    → read_address total 0 ((48 + c) ∷ (48 + d) ∷ (48 + e) ∷ rest)
      ≡ read_address total ((c * 10 + d) * 10 + e) rest
read_digits_three c d e total rest g h k =
    read_digits_two c d total ((48 + e) ∷ rest) g h ∙ read_digit e total (c * 10 + d) rest k

read_decimal :
    (n total : ℕ) (rest : List ℕ)
    → n < 256
    → read_address total 0 (decimal n ++ rest) ≡ read_address total n rest
unfolding decimal
read_decimal n total rest h = elim (Bool-cases (ltb n 10)) [
  | inl a ↦
      rw a (
        read_digit n total 0 rest (ground arith)
        ∙ ap (λ k. read_address total k rest) (omega arith))
  | inr a ↦ elim (Bool-cases (ltb n 100)) [
    | inl b ↦
        rw (a, b)
          (read_digits_two (n / 10) (n % 10) total rest (ground arith) (omega arith)
            ∙ ap (λ k. read_address total k rest) (omega arith))
    | inr b ↦
        rw (a, b)
          (read_digits_three (n / 100) (n / 10 % 10) (n % 10) total rest (ground arith)
              (omega arith) (omega arith)
            ∙ ap (λ k. read_address total k rest) (omega arith))
  ]
]

append_nil : (a : List ℕ) → a ++ [] ≡ a
append_nil [] = refl
append_nil (x ∷ a) = ap (◌∷◌ x) (append_nil a)

read_byte :
    (n total : ℕ) (rest : List ℕ)
    → n < 256
    → read_address total 0 (decimal n ++ (b'.' ∷ rest)) ≡ read_address (total * 256 + n) 0 rest
read_byte n total rest h = read_decimal n total (b'.' ∷ rest) h

read_last : (n total : ℕ) → n < 256 → read_address total 0 (decimal n) ≡ total * 256 + n
read_last n total h =
    ap (read_address total 0) (sym (append_nil (decimal n))) ∙ read_decimal n total [] h

-- The text of an address stands for that address.
pub read_address-ip_ntoa : (a : ℕ) → a < 4294967296 → read_address 0 0 (ip_ntoa a) ≡ a
unfolding ip_ntoa
read_address-ip_ntoa a h =
    let w = a / 16777216 % 256 in
    let x = a / 65536 % 256 in
    let y = a / 256 % 256 in
    let z = a % 256 in
    let after_y = decimal z in
    let after_x = decimal y ++ (b'.' ∷ after_y) in
    let after_w = decimal x ++ (b'.' ∷ after_x) in
    read_byte w 0 after_w (omega arith)
    ∙ read_byte x (0 * 256 + w) after_x (omega arith)
    ∙ read_byte y ((0 * 256 + w) * 256 + x) after_y (omega arith)
    ∙ read_last z (((0 * 256 + w) * 256 + x) * 256 + y) (omega arith)
    ∙ omega arith
