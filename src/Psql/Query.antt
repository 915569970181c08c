-- ===== src/Psql/Query.antt =====
-- Which credentials a `SELECT` statement of `findUserByCreds` stands for.
use simple_messenger.Prelude.{ℕ, ◌≡◌, ◌≢◌, refl, sym, List, [], ◌∷◌, ◌++◌, arith}
use simple_messenger.Psql.Defs.{select_head, select_middle, select_req, quote}

-- No quote among the bytes.
abbrev pub NoQuote : List ℕ → Type 0
NoQuote [] = Unit
NoQuote (c ∷ cs) = (c ≢ quote) × NoQuote cs

append-cancel_left : (xs ys zs : List ℕ) → xs ++ ys ≡ xs ++ zs → ys ≡ zs
append-cancel_left [] ys zs e = e
append-cancel_left (x ∷ xs) ys zs e = append-cancel_left xs ys zs (cc)

-- Two texts without a quote, each up to the first quote of one byte sequence, are the same.
quoted-injective :
    (xs ys r s : List ℕ)
    → NoQuote xs
    → NoQuote ys
    → xs ++ (quote ∷ r) ≡ ys ++ (quote ∷ s)
    → (xs ≡ ys) × (r ≡ s)
quoted-injective [] [] r s p q e = (refl, cc)
quoted-injective [] (y ∷ ys) r s p q e = absurd (q.0 (sym (cc)))
quoted-injective (x ∷ xs) [] r s p q e = absurd (p.0 (cc))
quoted-injective (x ∷ xs) (y ∷ ys) r s p q e =
    let (same, rest) = quoted-injective xs ys r s p.1 q.1 (cc) in (ground arith, rest)

-- Credentials without a quote are told apart by their statements.
pub select_req-injective :
    (email password email' password' : List ℕ)
    → NoQuote email
    → NoQuote email'
    → NoQuote password
    → NoQuote password'
    → select_req email password ≡ select_req email' password'
    → (email ≡ email') × (password ≡ password')
unfolding select_req select_middle
select_req-injective e p e' p' ne ne' np np' h =
    let (emails, rest) = quoted-injective e e' _ _ ne ne' (append-cancel_left select_head _ _ h) in
    let (passwords, _) = quoted-injective p p' [] [] np np' (cc) in (emails, passwords)
