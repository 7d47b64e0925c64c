-- ===== src/Middleware/Proxies.antt =====
-- `_client_ip` of api/app/core/middleware/rate_limit.py and the entries that a client makes up.
use proyecto_1_back.Prelude.{
  ℕ, suc, ◌-◌, ◌≡◌, refl, sym, ap, ◌∙◌, not, some, List, [], ◌∷◌, ◌++◌, map, filter, length,
  length-append, drop, ◌==◌, Bool-cases, inl, inr, arith,
}
use proyecto_1_back.Text.{Text}
use proyecto_1_back.Text.Words.{trim, split, onto_first, is_empty}
use proyecto_1_back.Sql.Laws.{filter-append}
use proyecto_1_back.Middleware.{parts, head_or, client_ip}

module _ {A : Type 0} where
  drop-append : (xs ys : List A) → drop (length xs) (xs ++ ys) ≡ ys
  drop-append [] ys = refl
  drop-append (x ∷ xs) ys = drop-append xs ys

  map-append : {B : Type 0} (f : A → B) (xs ys : List A) → map f (xs ++ ys) ≡ map f xs ++ map f ys
  map-append f [] ys = refl
  map-append f (x ∷ xs) ys = ap (λ l. f x ∷ l) (map-append f xs ys)

-- a split text has a first word
split_cons : (s : Text) → (w : Text) × (ws : List Text) × (split 44 s ≡ w ∷ ws)
unfolding split
split_cons [] = ([], [], refl)
split_cons (c ∷ s) = elim (Bool-cases (c == 44)) [
  | inl e ↦ rw e ([], split 44 s, refl)
  | inr e ↦ rw e (first (split_cons s))
]
  where
    first :
        ((w : Text) × (ws : List Text) × (split 44 s ≡ w ∷ ws))
        → (w : Text) × (ws : List Text) × (onto_first c (split 44 s) ≡ w ∷ ws)
    first (w, ws, is) = (c ∷ w, ws, rw is refl)

split-append : (a b : Text) → split 44 (a ++ (44 ∷ b)) ≡ split 44 a ++ split 44 b
unfolding split
split-append [] b = refl
split-append (c ∷ a) b = elim (Bool-cases (c == 44)) [
  | inl e ↦ rw e (ap (λ l. [] ∷ l) (split-append a b))
  | inr e ↦ rw e (let words = split_cons a in rw (split-append a b) (rw (words.2) refl))
]

parts-append : (a b : Text) → parts (a ++ (44 ∷ b)) ≡ parts a ++ parts b
unfolding parts
parts-append a b = rw (split-append a b) (
    ap (map trim) (filter-append (λ p. not (is_empty (trim p))) (split 44 a) (split 44 b))
    ∙ map-append trim (filter _ (split 44 a)) _)

last_hops :
    (xs rest : List Text) (address remote : Text)
    → head_or remote
        (drop (length (xs ++ (address ∷ rest)) - suc (length rest)) (xs ++ (address ∷ rest)))
      ≡ address
last_hops xs rest address remote =
    ap (λ (k : ℕ). head_or remote (drop k (xs ++ (address ∷ rest))))
      (omega (arith, length-append xs (address ∷ rest)))
    ∙ ap (head_or remote) (drop-append xs (address ∷ rest))

-- Whatever entries a client puts in front of the header, the address is the first of those that the
-- trusted proxies appended, one each.
pub client_ip-proxies :
    (n : ℕ) (client appended address remote : Text) (rest : List Text)
    → parts appended ≡ address ∷ rest
    → length rest ≡ n
    → client_ip (suc n) (some (client ++ (44 ∷ appended))) remote ≡ address
unfolding client_ip
client_ip-proxies n [] appended address remote rest p k =
    rw (parts-append [] appended, p, sym k) (last_hops (parts []) rest address remote)
client_ip-proxies n (c ∷ client) appended address remote rest p k =
    rw (parts-append (c ∷ client) appended, p, sym k)
      (last_hops (parts (c ∷ client)) rest address remote)
