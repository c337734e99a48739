-- ===== src/Eqlogin/LoginPacket/Layout.antt =====
-- The layout of a login datagram, and that `ParseLoginPacket` accepts just this layout.
use alfred_identity_backend.Common.{
  ℕ, ◌+◌, ◌%◌, ◌≤◌, ◌<◌, ◌≡◌, sym, ap, ◌∙◌, true, ◌∷◌, ◌++◌, some, length, take, drop, arith,
  length-append, length-take, length-drop, take_at, drop_at, drop_past, take-append-drop,
}
use alfred_identity_backend.Common.Bytes.{
  Bytes, byte_at, be16, le16, has_prefix, get_or-append_left, get_or-append_at, has_prefix-append,
  has_prefix-take, get_or-take, split_at,
}
use mathlib.Core.List.{append_assoc}
use alfred_identity_backend.Crypto.Des.{DesCbc, decrypt_des}
use alfred_identity_backend.Eqlogin.Soe.{op_packet}
use alfred_identity_backend.Eqlogin.LoginPacket.{
  LoginPacket, login_prefix, parse_login_packet, parse_encrypted,
}

-- The acknowledged prefix, the length byte, the header of the login sub-packet, the encrypted
-- credentials, and what follows.
pub record Layout : Type 0 where
  pub ack : Bytes
  pub header : Bytes
  pub encrypted : Bytes
  pub rest : Bytes

abbrev pub wire : Layout → Bytes
wire l = l.ack ++ (16 + length l.encrypted) ∷ (l.header ++ (l.encrypted ++ l.rest))

pub record IsLogin (l : Layout) : Type 0 where
  pub ack_len : length l.ack ≡ 7
  pub ack_prefix : has_prefix l.ack login_prefix ≡ true
  pub header_len : length l.header ≡ 16
  pub is_packet : be16 l.header 0 ≡ op_packet
  pub is_login : le16 l.header 4 ≡ 2
  pub some_blocks : 0 < length l.encrypted
  pub whole_blocks : length l.encrypted % 8 ≡ 0

-- The tests of `ParseLoginPacket`, passed one after the other.
parse_passes :
    (des : DesCbc) (buf sub2 : Bytes) (n : ℕ)
    → 30 ≤ length buf
    → has_prefix buf login_prefix ≡ true
    → byte_at buf 7 ≡ n
    → 8 + n ≤ length buf
    → take n (drop 8 buf) ≡ sub2
    → length sub2 ≡ n
    → be16 sub2 0 ≡ op_packet
    → le16 sub2 4 ≡ 2
    → 16 < n
    → parse_login_packet des buf ≡ parse_encrypted des buf n (drop 16 sub2)
unfolding parse_login_packet
parse_passes des buf sub2 n h1 h2 h3 h4 h5 h6 h7 h8 h9 = ground arith

module _ (l : Layout) (ok : IsLogin l) where
  length-wire : length (wire l) ≡ 24 + length l.encrypted + length l.rest
  length-wire = omega (
    arith,
    length-append {0} l.ack ((16 + length l.encrypted) ∷ (l.header ++ (l.encrypted ++ l.rest))),
    length-append {0} l.header (l.encrypted ++ l.rest),
    length-append {0} l.encrypted l.rest,
    ok.ack_len,
    ok.header_len,
  )

  prefix-wire : has_prefix (wire l) login_prefix ≡ true
  prefix-wire = has_prefix-append login_prefix l.ack _ ok.ack_prefix

  length_byte-wire : byte_at (wire l) 7 ≡ 16 + length l.encrypted
  length_byte-wire =
      rw (← ok.ack_len) (get_or-append_at l.ack (l.header ++ (l.encrypted ++ l.rest)) _)

  drop-wire : drop 8 (wire l) ≡ l.header ++ (l.encrypted ++ l.rest)
  drop-wire = drop_past l.ack _ _ 7 ok.ack_len

  sub_packet-wire :
      take (16 + length l.encrypted) (l.header ++ (l.encrypted ++ l.rest)) ≡ l.header ++ l.encrypted
  sub_packet-wire = rw (← append_assoc l.header l.encrypted l.rest) (
      take_at (l.header ++ l.encrypted) l.rest _
        (omega (arith, length-append {0} l.header l.encrypted, ok.header_len)))

  header_byte : (i : ℕ) → i < 16 → byte_at (l.header ++ l.encrypted) i ≡ byte_at l.header i
  header_byte i h = get_or-append_left l.header l.encrypted i (omega (arith, ok.header_len))

  -- `ParseLoginPacket` accepts the layout, and decrypts its blocks.
  pub parse-wire :
      (des : DesCbc)
      → parse_login_packet des (wire l)
        ≡ parse_encrypted des (wire l) (16 + length l.encrypted) l.encrypted
  parse-wire des =
      parse_passes des (wire l) (l.header ++ l.encrypted) (16 + length l.encrypted)
        (omega (arith, length-wire, ok.some_blocks, ok.whole_blocks)) prefix-wire length_byte-wire
        (omega (arith, length-wire)) (rw drop-wire sub_packet-wire)
        (omega (arith, length-append {0} l.header l.encrypted, ok.header_len))
        (ground (arith, header_byte 0, header_byte 1, ok.is_packet))
        (ground (arith, header_byte 4, header_byte 5, ok.is_login)) (omega (arith, ok.some_blocks))
      ∙ ap (parse_encrypted des (wire l) (16 + length l.encrypted))
          (drop_at l.header _ 16 ok.header_len)

-- The tests of `ParseLoginPacket`, read off a success.
parse_passed :
    (des : DesCbc) (buf : Bytes) (lp : LoginPacket)
    → parse_login_packet des buf ≡ some lp
    → (has_prefix buf login_prefix ≡ true)
      × (30 ≤ length buf)
      × (8 + byte_at buf 7 ≤ length buf)
      × (be16 (take (byte_at buf 7) (drop 8 buf)) 0 ≡ op_packet)
      × (le16 (take (byte_at buf 7) (drop 8 buf)) 4 ≡ 2)
      × (16 < length (take (byte_at buf 7) (drop 8 buf)))
      × (parse_encrypted des buf (byte_at buf 7) (drop 16 (take (byte_at buf 7) (drop 8 buf)))
          ≡ some lp)
unfolding parse_login_packet
parse_passed des buf lp h = ground arith

-- What a parsed packet remembers of its position.
pub record IsAt (lp : LoginPacket) (l : Layout) : Type 0 where
  pub buf_wire : lp.buf ≡ wire l
  pub at_offset : lp.sub2_offset ≡ 8
  pub at_len : lp.sub2_len ≡ 16 + length l.encrypted
  pub at_enc : lp.enc_offset ≡ 16

parse_encrypted_fields :
    (des : DesCbc) (buf : Bytes) (n : ℕ) (e : Bytes) (lp : LoginPacket)
    → parse_encrypted des buf n e ≡ some lp
    → (lp.buf ≡ buf)
      × (lp.sub2_offset ≡ 8)
      × (lp.sub2_len ≡ n)
      × (lp.enc_offset ≡ 16)
      × (length e % 8 ≡ 0)
unfolding parse_encrypted decrypt_des
parse_encrypted_fields des buf n e lp h = ground arith

module _ (des : DesCbc) (buf : Bytes) (lp : LoginPacket)
    (h : parse_login_packet des buf ≡ some lp) where
  abbrev n : ℕ
  n = byte_at buf 7

  abbrev sub2 : Bytes
  sub2 = take n (drop 8 buf)

  -- The layout of an accepted packet.
  abbrev pub layout_of : Layout
  layout_of = record {
    ack = take 7 buf;
    header = take 16 sub2;
    encrypted = drop 16 sub2;
    rest = drop n (drop 8 buf);
  }

  n_lem : n ≡ 16 + length (drop 16 sub2)
  n_lem =
      let (_, _, fits, _, _, long, _) = parse_passed des buf lp h in
      omega (arith, length-drop 16 sub2, length-take n (drop 8 buf), length-drop 8 buf)

  buf-wire : buf ≡ wire layout_of
  buf-wire =
      let (_, _, fits, _, _, _, _) = parse_passed des buf lp h in
      let parts = take 16 sub2 ++ (drop 16 sub2 ++ drop n (drop 8 buf)) in
      let inner : parts ≡ drop 8 buf =
        sym (append_assoc (take 16 sub2) (drop 16 sub2) (drop n (drop 8 buf)))
        ∙ ap (λ (s : Bytes). s ++ drop n (drop 8 buf)) (take-append-drop 16 sub2)
        ∙ take-append-drop n (drop 8 buf) in
      split_at buf 7 (omega arith)
      ∙ ap (λ (r : Bytes). take 7 buf ++ n ∷ r) (sym inner)
      ∙ ap (λ (k : ℕ). take 7 buf ++ k ∷ parts) n_lem

  -- A datagram that ParseLoginPacket accepts has the layout of a login packet: acknowledged prefix,
  -- length byte, header with the two opcodes, whole encrypted blocks, rest; and the parsed packet
  -- remembers these positions.
  pub wire-parse : IsLogin layout_of × (buf ≡ wire layout_of) × IsAt lp layout_of
  wire-parse =
      let (pre, len, fits, op, login, long, inside) = parse_passed des buf lp h in
      let (f1, f2, f3, f4, blocks) = parse_encrypted_fields des buf n (drop 16 sub2) lp inside in
      (
        record {
          ack_len = length-take 7 buf (omega arith);
          ack_prefix = has_prefix-take login_prefix buf 7 (omega arith) pre;
          header_len = length-take 16 sub2 (omega arith);
          is_packet = ground (arith, get_or-take sub2 16 0, get_or-take sub2 16 1);
          is_login = ground (arith, get_or-take sub2 16 4, get_or-take sub2 16 5);
          some_blocks = omega (arith, length-drop 16 sub2);
          whole_blocks = blocks;
        },
        buf-wire,
        record { buf_wire = f1 ∙ buf-wire; at_offset = f2; at_len = f3 ∙ n_lem; at_enc = f4 },
      )
