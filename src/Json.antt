-- ===== src/Json.antt =====
-- What `JSON.stringify` prints, as the tokens of the text: two values print alike exactly when the
-- tokens are the same. Used where lib/assets/TagManager.ts and CorrespondentManager.ts compare
-- `JSON.stringify(a) !== JSON.stringify(b)`.
use papercrate.Base.{
  ℕ, ap, eq_refl, Bool, String, true, false, ◌&&◌, ◌≡◌, arith, eq_iff, ◌==◌, nat_eq, if◌then◌else◌,
  List, [], ◌∷◌, ◌++◌, refl,
}
use papercrate.Js.{
  Value, Items, Fields, undefined, null, boolean, number, text, array, object, nil, cons, end,
  field,
}
use Prim.Native.Nat.{◌/◌, ◌%◌, ◌^◌}

pub data Token : Type 0 where
  null_word true_word false_word open_array close_array open_object close_object : Token
  digits : ℕ → Token
  quoted key : String → Token

-- NaN and the infinities print as null; both zeros print as 0.
number_token : ℕ → Token
number_token n =
    if nat_eq ((n / 2 ^ 52) % 2 ^ 11) 2047
    then null_word
    else if nat_eq n (2 ^ 63)
    then digits 0
    else digits n

-- A property whose value is undefined is left out.
property : String → Value → List Token → List Token → List Token
property k undefined t rest = rest
property k v t rest = key k ∷ (t ++ rest)

-- An undefined element prints as null.
unfoldable mutual
  unfolding property number_token

  pub tokens : Value → List Token
  tokens undefined = null_word ∷ []
  tokens null = null_word ∷ []
  tokens (boolean b) = (if b then true_word else false_word) ∷ []
  tokens (number n) = number_token n ∷ []
  tokens (text s) = quoted s ∷ []
  tokens (array i xs) = open_array ∷ tokens_of_items xs
  tokens (object i f) = open_object ∷ tokens_of_fields f

  pub tokens_of_items : Items → List Token
  tokens_of_items nil = close_array ∷ []
  tokens_of_items (cons v xs) = tokens v ++ tokens_of_items xs

  pub tokens_of_fields : Fields → List Token
  tokens_of_fields end = close_object ∷ []
  tokens_of_fields (field k v f) = property k v (tokens v) (tokens_of_fields f)

token_eq : Token → Token → Bool
token_eq null_word null_word = true
token_eq true_word true_word = true
token_eq false_word false_word = true
token_eq open_array open_array = true
token_eq close_array close_array = true
token_eq open_object open_object = true
token_eq close_object close_object = true
token_eq (digits a) (digits b) = nat_eq a b
token_eq (quoted a) (quoted b) = a == b
token_eq (key a) (key b) = a == b
token_eq _ _ = false

unfoldable pub tokens_eq : List Token → List Token → Bool
unfolding token_eq
tokens_eq [] [] = true
tokens_eq (a ∷ as') (b ∷ bs) = token_eq a b && tokens_eq as' bs
tokens_eq _ _ = false

token_eq→eq : (a b : Token) → token_eq a b ≡ true → a ≡ b
unfolding token_eq
token_eq→eq (digits a) (digits b) h = ground arith
token_eq→eq (quoted a) (quoted b) h = ap quoted ((eq_iff a b).0 h)
token_eq→eq (key a) (key b) h = ap key ((eq_iff a b).0 h)
token_eq→eq null_word b h = ground arith
token_eq→eq _ b h = ground arith

token_eq_refl : (a : Token) → token_eq a a ≡ true
unfolding token_eq
token_eq_refl (digits a) = ground arith
token_eq_refl (quoted a) = eq_refl a
token_eq_refl (key a) = eq_refl a
token_eq_refl _ = refl

pub tokens_eq→eq : (s t : List Token) → tokens_eq s t ≡ true → s ≡ t
unfolding tokens_eq
tokens_eq→eq [] [] h = refl
tokens_eq→eq (a ∷ s) (b ∷ t) h =
    cc (token_eq→eq a b (ground arith), tokens_eq→eq s t (ground arith))
tokens_eq→eq [] (b ∷ t) h = cc
tokens_eq→eq (a ∷ s) [] h = cc

pub tokens_eq_refl : (s : List Token) → tokens_eq s s ≡ true
unfolding tokens_eq
tokens_eq_refl [] = refl
tokens_eq_refl (a ∷ s) = ground (arith, token_eq_refl a, tokens_eq_refl s)

-- `JSON.stringify(a) === JSON.stringify(b)`
unfoldable pub same_json : Fields → Fields → Bool
unfolding tokens_eq
same_json a b = tokens_eq (tokens_of_fields a) (tokens_of_fields b)
