-- ===== src/Filter/Range/Printed.antt =====
-- The text of an IPv4 address that the protocol parser prints, read by the filter.
use beatrice.Base.{
  ℕ, ◌<◌, ◌≡◌, refl, sym, ◌∙◌, ap, Bool, true, false, not, ◌&&◌, List, [], ◌∷◌, ◌++◌, Text,
  append_assoc, codes, decimal, joined, is_empty, ◌==◌, ==_iff, Fault, Result, ok, err, ◌>>=◌,
  arith, Result-cases, inl, inr, ◌%◌, ◌^◌,
}
use beatrice.Base.Numbers.{stoi, get_lines, has_byte, get_lines-append, get_lines_last}
use beatrice.Parser.Value.Format.{format_ipv4_address}
use beatrice.Filter.Range.{octets, parse_ip_address}
use beatrice.Filter.Range.Cidr.{IsByte4, all_below, all_below-lt}

reads_back : ℕ → Result ℕ → Bool
reads_back a (ok n) = n == a
reads_back a (err e) = false

-- The decimal text of a byte has no dot, and std::stoi reads it.
byte_text : ℕ → Bool
byte_text a =
    not (has_byte b'.' (decimal a)) && not (is_empty (decimal a)) && reads_back a (stoi (decimal a))

byte_text-lt : (a : ℕ) → a < 256 → byte_text a ≡ true
unfolding byte_text reads_back all_below has_byte decimal stoi
byte_text-lt a h = all_below-lt 256 byte_text a refl h

has_byte-decimal : (a : ℕ) → a < 256 → has_byte b'.' (decimal a) ≡ false
unfolding byte_text
has_byte-decimal a h = ground (arith, byte_text-lt a h)

is_empty-decimal : (a : ℕ) → a < 256 → is_empty (decimal a) ≡ false
unfolding byte_text
is_empty-decimal a h = ground (arith, byte_text-lt a h)

stoi-decimal : (a : ℕ) → a < 256 → stoi (decimal a) ≡ ok a
unfolding byte_text
stoi-decimal a h = elim (Result-cases (stoi (decimal a))) [
  | inl (n, e) ↦ e ∙ ap ok (same n (ap (reads_back a) (sym e) ∙ reads))
  | inr (e, fault) ↦ absurd (differ e (sym (ap (reads_back a) fault) ∙ reads))
]
  where
    reads : reads_back a (stoi (decimal a)) ≡ true
    reads = ground (arith, byte_text-lt a h)

    same : (n : ℕ) → reads_back a (ok n) ≡ true → n ≡ a
    same n k = unfold reads_back in (==_iff n a).0 k

    differ : (e : Fault) → reads_back a (err e) ≡ true → ⊥
    differ e k = unfold reads_back in (cc)

octets-cons :
    (a : ℕ) (ts : List Text) (rest : Text)
    → a < 256
    → octets ts ≡ ok rest
    → octets (decimal a ∷ ts) ≡ ok (a ∷ rest)
unfolding octets
octets-cons a ts rest h e =
    ap (λ m. m >>= λ n. octets ts >>= λ r. ok ((n % 2 ^ 8) ∷ r)) (stoi-decimal a h)
    ∙ ap (λ m. m >>= λ r. ok ((a % 2 ^ 8) ∷ r)) e
    ∙ ap (λ (n : ℕ). ok (n ∷ rest)) (omega arith)

dotted :
    (x y z w : Text)
    → joined (codes ".") (x ∷ y ∷ z ∷ w ∷ []) ≡ x ++ b'.' ∷ (y ++ b'.' ∷ (z ++ b'.' ∷ w))
unfolding joined
dotted x y z w =
    append_assoc x (b'.' ∷ []) _
    ∙ ap (λ t. x ++ b'.' ∷ t)
        (append_assoc y (b'.' ∷ []) _ ∙ ap (λ t. y ++ b'.' ∷ t) (append_assoc z (b'.' ∷ []) w))

-- For four bytes, parseIPAddress reads back the text that formatIPv4Address prints of them.
pub parse_ip_address-format_ipv4_address :
    (a b c d : ℕ)
    → IsByte4 a b c d
    → parse_ip_address (format_ipv4_address (a ∷ b ∷ c ∷ d ∷ [])) ≡ ok (a ∷ b ∷ c ∷ d ∷ [])
unfolding parse_ip_address format_ipv4_address
parse_ip_address-format_ipv4_address a b c d (ha, hb, hc, hd) =
    ap (λ t. octets (get_lines b'.' t)) (dotted (decimal a) (decimal b) (decimal c) (decimal d))
    ∙ ap octets (
        get_lines-append b'.' (decimal a) _ (has_byte-decimal a ha)
        ∙ ap (◌∷◌ (decimal a)) (
            get_lines-append b'.' (decimal b) _ (has_byte-decimal b hb)
            ∙ ap (◌∷◌ (decimal b)) (
                get_lines-append b'.' (decimal c) _ (has_byte-decimal c hc)
                ∙ ap (◌∷◌ (decimal c)) (
                    get_lines_last b'.' (decimal d) (has_byte-decimal d hd)
                      (is_empty-decimal d hd)))))
    ∙ octets-cons a (decimal b ∷ decimal c ∷ decimal d ∷ []) (b ∷ c ∷ d ∷ []) ha (
        octets-cons b (decimal c ∷ decimal d ∷ []) (c ∷ d ∷ []) hb
          (octets-cons c (decimal d ∷ []) (d ∷ []) hc (octets-cons d [] [] hd nothing)))
  where
    nothing : octets [] ≡ ok []
    nothing = unfold octets in refl
