-- ===== src/Enclave/Ghost/Genuine.antt =====
-- crates/enclave/src/ghost.rs: proofs about the request of a ghost.
use tokumai.Base.{
  ℕ, ◌-◌, ◌/◌, ◌^◌, ◌≤◌, ◌<◌, ◌≡◌, refl, sym, ap, ◌∙◌, Bool, true, false, Option, none, some, List,
  [], ◌∷◌, ◌++◌, length, ltb, ==_refl, max, arith,
}
use mathlib.Core.List.{append_assoc}
use tokumai.Base.Bytes.{Bytes}
use tokumai.Base.Text.{strip_prefix, split_at, split_once, parse_below, decimal}
use tokumai.Base.Text.Decimal.{occurs, digits-decimal, digits-occurs, parse_below-decimal}
use tokumai.Base.Text.Pieces.{
  strip_prefix-append, occurs-append, split_once-append, split_at-append, split_at-one, take_all,
}
use tokumai.Enclave.Ghost.{
  ghost_request_bytes, ghost_minutes, minute_ms, space, newline, request_marker, zeros, resize,
  no_difference, minutes_apart, request_line, request, tag_checked, parts_checked, line_checked,
  text_checked, reply_to,
}

no_difference_refl : (bs : Bytes) → no_difference bs bs ≡ true
unfolding no_difference
no_difference_refl [] = refl
no_difference_refl (b ∷ bs) = rw (==_refl b) (no_difference_refl bs)

no_difference→≡ : (xs ys : Bytes) → length xs ≡ length ys → no_difference xs ys ≡ true → xs ≡ ys
unfolding no_difference
no_difference→≡ [] [] n e = refl
no_difference→≡ [] (y ∷ ys) n e = absurd (omega arith)
no_difference→≡ (x ∷ xs) [] n e = absurd (omega arith)
no_difference→≡ (x ∷ xs) (y ∷ ys) n e = ground (arith, no_difference→≡ xs ys)

decimal-clean :
    (f : ℕ → Bool) (n : ℕ)
    → ((b : ℕ) → 48 ≤ b → b ≤ 57 → f b ≡ false)
    → occurs f (decimal n) ≡ false
decimal-clean f n none_of = digits-occurs f 0 n (decimal n) none_of (digits-decimal n)

module _ (mac : Bytes → ℕ → Bytes) (is_utf8 : Bytes → Bool) where
  -- What the address and the tags are made of.
  pub record IsPlain (address : Bytes) (minute : ℕ) : Type 0 where
    pub one_word : occurs space address ≡ false
    pub one_line : occurs newline address ≡ false
    pub tag_word : occurs space (mac address minute) ≡ false
    pub tag_line : occurs newline (mac address minute) ≡ false
    pub text : is_utf8 (request_line mac is_utf8 address minute) ≡ true

  request-padded :
      (address : Bytes) (now_ms : ℕ)
      → (padding : Bytes) × (request mac is_utf8 address now_ms
          ≡ request_marker
            ++ (request_line mac is_utf8 address (now_ms / minute_ms) ++ 10 ∷ padding))
  unfolding request resize
  request-padded address now_ms =
      let line = request_line mac is_utf8 address (now_ms / minute_ms) in
      let out = request_marker ++ (line ++ 10 ∷ []) in
      let n = max ghost_request_bytes (length out) in
      let padding = zeros (n - length out) in
      (
        padding,
        rw
            (
              take_all n out (omega arith),
              append_assoc request_marker (line ++ 10 ∷ []) padding,
              append_assoc line (10 ∷ []) padding,
            )
            refl,
      )

  line-split :
      (address : Bytes) (minute : ℕ)
      → IsPlain address minute
      → split_at space (request_line mac is_utf8 address minute)
        ≡ address ∷ decimal minute ∷ mac address minute ∷ []
  unfolding request_line
  line-split address minute plain =
      split_at-append space address 32 (decimal minute ++ (32 ∷ mac address minute)) plain.one_word
        refl
      ∙ ap (λ (ps : List Bytes). address ∷ ps)
          (split_at-append space (decimal minute) 32 (mac address minute)
              (decimal-clean space minute (λ b lo hi. ground arith)) refl
            ∙ ap (λ (ps : List Bytes). decimal minute ∷ ps)
                (split_at-one space (mac address minute) plain.tag_word))

  line-one_line :
      (address : Bytes) (minute : ℕ)
      → IsPlain address minute
      → occurs newline (request_line mac is_utf8 address minute) ≡ false
  unfolding request_line occurs
  line-one_line address minute plain =
      occurs-append newline address (32 ∷ (decimal minute ++ (32 ∷ mac address minute)))
        plain.one_line
        (occurs-append newline (decimal minute) (32 ∷ mac address minute)
          (decimal-clean newline minute (λ b lo hi. ground arith)) plain.tag_line)

  tag_checked-own :
      (address : Bytes) (minute now_ms : ℕ)
      → minutes_apart (now_ms / minute_ms) minute ≤ ghost_minutes
      → tag_checked mac is_utf8 address (mac address minute) now_ms (some minute) ≡ some address
  unfolding tag_checked
  tag_checked-own address minute now_ms near =
      let recent : ltb ghost_minutes (minutes_apart (now_ms / minute_ms) minute) ≡ false =
        ground arith in
      rw (recent, ==_refl (length (mac address minute)), no_difference_refl (mac address minute))
        refl

  -- A ghost request made before 2 ^ 64 ms is answered to the address that it names, wherever its
  -- minute is at most three from the minute of its arrival, the address and its tag have neither a
  -- space nor a new line in them, and its line is text.
  pub reply_to-request :
      (address : Bytes) (now_ms later_ms : ℕ)
      → now_ms < 2 ^ 64
      → minutes_apart (later_ms / minute_ms) (now_ms / minute_ms) ≤ ghost_minutes
      → IsPlain address (now_ms / minute_ms)
      → reply_to mac is_utf8 (request mac is_utf8 address now_ms) later_ms ≡ some address
  unfolding reply_to parts_checked text_checked line_checked
  reply_to-request address now_ms later_ms small near plain =
      let minute = now_ms / minute_ms in
      let line = request_line mac is_utf8 address minute in
      let made = request-padded address now_ms in
      let read : parse_below (2 ^ 64) (decimal minute) ≡ some minute =
        parse_below-decimal (2 ^ 64) minute (omega arith) in
      ap (λ (m : Bytes). text_checked mac is_utf8 (strip_prefix request_marker m) later_ms) made.1
      ∙ ap (λ (o : Option Bytes). text_checked mac is_utf8 o later_ms)
          (strip_prefix-append request_marker (line ++ 10 ∷ made.0))
      ∙ ap (λ (o : Option (Bytes × Bytes)). line_checked mac is_utf8 o later_ms)
          (split_once-append newline line 10 made.0 (line-one_line address minute plain) refl)
      ∙ rw (plain.text, line-split address minute plain, parts_checked, read)
          (tag_checked-own address minute later_ms near)

  -- What stands behind a message that is answered: a line with three parts, the third of which is the tag
  -- of the first and of a minute close to now.
  pub record IsOurs (message address : Bytes) (now_ms : ℕ) : Type 0 where
    pub line : Bytes
    pub rest : Bytes
    pub digits : Bytes
    pub minute : ℕ
    pub padding : Bytes
    pub text : strip_prefix request_marker message ≡ some rest
    pub first_line : split_once newline rest ≡ some (line, padding)
    pub parts : split_at space line ≡ address ∷ digits ∷ mac address minute ∷ []
    pub number : parse_below (2 ^ 64) digits ≡ some minute
    pub close : minutes_apart (now_ms / minute_ms) minute ≤ ghost_minutes

  tag_checked→ :
      (first tag address : Bytes) (now_ms : ℕ) (o : Option ℕ)
      → tag_checked mac is_utf8 first tag now_ms o ≡ some address
      → (minute : ℕ) × (o ≡ some minute)
        × (first ≡ address)
        × (tag ≡ mac first minute)
        × (minutes_apart (now_ms / minute_ms) minute ≤ ghost_minutes)
  unfolding tag_checked
  tag_checked→ first tag address now_ms none e = absurd (nothing e)
    where
      nothing : none ≡ some address → ⊥
      nothing h = cc
  tag_checked→ first tag address now_ms (some minute) e =
      let same : first ≡ address = ground arith in
      let near : minutes_apart (now_ms / minute_ms) minute ≤ ghost_minutes = ground arith in
      let n : length (mac first minute) ≡ length tag = ground arith in
      let d : no_difference (mac first minute) tag ≡ true = ground arith in
      (minute, refl, same, sym (no_difference→≡ (mac first minute) tag n d), near)

  parts_checked→ :
      (message line rest padding address : Bytes) (now_ms : ℕ) (ps : List Bytes)
      → strip_prefix request_marker message ≡ some rest
      → split_once newline rest ≡ some (line, padding)
      → split_at space line ≡ ps
      → parts_checked mac is_utf8 ps now_ms ≡ some address
      → IsOurs message address now_ms
  unfolding parts_checked
  parts_checked→ message line rest padding address now_ms [] t w s e = absurd (cc)
  parts_checked→ message line rest padding address now_ms (a ∷ []) t w s e = absurd (cc)
  parts_checked→ message line rest padding address now_ms (a ∷ b ∷ []) t w s e = absurd (cc)
  parts_checked→ message line rest padding address now_ms (a ∷ b ∷ c ∷ d ∷ ps) t w s e = absurd (cc)
  parts_checked→ message line rest padding address now_ms (a ∷ b ∷ c ∷ []) t w s e =
      let c' = tag_checked→ a c address now_ms (parse_below (2 ^ 64) b) e in
      record {
        line = line;
        rest = rest;
        digits = b;
        minute = c'.0;
        padding = padding;
        text = t;
        first_line = w;
        parts = s ∙ (λ i. a ∷ b ∷ c'.3 i ∷ []) ∙ (λ i. c'.2 i ∷ b ∷ mac (c'.2 i) c'.0 ∷ []);
        number = c'.1;
        close = c'.4;
      }

  line_checked→ :
      (message rest address : Bytes) (now_ms : ℕ) (o : Option (Bytes × Bytes))
      → strip_prefix request_marker message ≡ some rest
      → split_once newline rest ≡ o
      → line_checked mac is_utf8 o now_ms ≡ some address
      → IsOurs message address now_ms
  unfolding line_checked
  line_checked→ message rest address now_ms none t w e = absurd (nothing e)
    where
      nothing : none ≡ some address → ⊥
      nothing h = cc
  line_checked→ message rest address now_ms (some (line, padding)) t w e =
      parts_checked→ message line rest padding address now_ms (split_at space line) t w refl
        (ground arith)

  text_checked→ :
      (message address : Bytes) (now_ms : ℕ) (o : Option Bytes)
      → strip_prefix request_marker message ≡ o
      → text_checked mac is_utf8 o now_ms ≡ some address
      → IsOurs message address now_ms
  unfolding text_checked
  text_checked→ message address now_ms none t e = absurd (nothing e)
    where
      nothing : none ≡ some address → ⊥
      nothing h = cc
  text_checked→ message address now_ms (some rest) t e =
      line_checked→ message rest address now_ms (split_once newline rest) t refl e

  -- Where a message is answered, it begins with the marker, and the first line behind it has
  -- exactly three parts: the address that is answered, the number of a minute at most three from
  -- now, and the tag of that address and minute under the key.
  pub reply_to-IsOurs :
      (message address : Bytes) (now_ms : ℕ)
      → reply_to mac is_utf8 message now_ms ≡ some address
      → IsOurs message address now_ms
  unfolding reply_to
  reply_to-IsOurs message address now_ms e =
      text_checked→ message address now_ms (strip_prefix request_marker message) refl e
