-- ===== src/Store/Apps/AdminKeys.antt =====
-- The composite keys "app_id\\x00user_guid": a prefix scan of one app meets no key of another.
use Prim.Native.Char.{Char, nul, code}
use text.Mathlib.TextEquality.{starts_with_iff}
use text.Mathlib.TextLemmas.{nil-append, cons-append, append_assoc}
use simple_auth.Prelude.{
  String, ◌^^◌, ◌≡◌, refl, sym, ◌∙◌, ap, ap₂, Bool, false, ◌||◌, eqb, starts_with, ◌==◌, arith,
  eq_iff, Bool-cases, inl, inr,
}
use simple_auth.Store.Apps.{nul_text, app_admin_prefix, app_admin_key}

-- Does the text hold the character NUL?
abbrev pub has_nul : String → Bool
has_nul String.[] = false
has_nul (String.◌∷◌ c s) = eqb (code c) 0 || has_nul s

head_of : Char → String → Char
head_of d String.[] = d
head_of d (String.◌∷◌ c s) = c

tail_of : String → String
tail_of String.[] = ""
tail_of (String.◌∷◌ c s) = s

cons-injective : (c d : Char) (s t : String) → String.◌∷◌ c s ≡ String.◌∷◌ d t → (c ≡ d) × (s ≡ t)
unfolding head_of tail_of
cons-injective c d s t e = (ap (head_of c) e, ap tail_of e)

-- Texts without NUL that are followed by NUL and begin one text are equal.
prefix_unique :
    (a b g h : String)
    → has_nul a ≡ false
    → has_nul b ≡ false
    → a ^^ String.◌∷◌ nul g ≡ b ^^ String.◌∷◌ nul h
    → a ≡ b
prefix_unique String.[] String.[] g h pa pb e = refl
prefix_unique String.[] (String.◌∷◌ d t) g h pa pb e =
    let e' : String.◌∷◌ nul g ≡ String.◌∷◌ d (t ^^ String.◌∷◌ nul h) =
      sym (nil-append (String.◌∷◌ nul g)) ∙ e ∙ cons-append d t (String.◌∷◌ nul h) in
    absurd (ground (arith, ap code (cons-injective nul d g (t ^^ String.◌∷◌ nul h) e').0))
prefix_unique (String.◌∷◌ c s) String.[] g h pa pb e =
    let e' : String.◌∷◌ c (s ^^ String.◌∷◌ nul g) ≡ String.◌∷◌ nul h =
      sym (cons-append c s (String.◌∷◌ nul g)) ∙ e ∙ nil-append (String.◌∷◌ nul h) in
    absurd (ground (arith, ap code (cons-injective c nul (s ^^ String.◌∷◌ nul g) h e').0))
prefix_unique (String.◌∷◌ c s) (String.◌∷◌ d t) g h pa pb e =
    let e' : String.◌∷◌ c (s ^^ String.◌∷◌ nul g) ≡ String.◌∷◌ d (t ^^ String.◌∷◌ nul h) =
      sym (cons-append c s (String.◌∷◌ nul g)) ∙ e ∙ cons-append d t (String.◌∷◌ nul h) in
    let (p, q) = cons-injective c d (s ^^ String.◌∷◌ nul g) (t ^^ String.◌∷◌ nul h) e' in
    ap₂ String.◌∷◌ p (prefix_unique s t g h (ground arith) (ground arith) q)

joined : (a g : String) → (a ^^ nul_text) ^^ g ≡ a ^^ String.◌∷◌ nul g
joined a g =
    append_assoc a nul_text g
    ∙ ap (λ x. a ^^ x) (cons-append nul "" g ∙ ap (String.◌∷◌ nul) (nil-append g))

pub app_admin_key-apart :
    (app_id other user_guid : String)
    → has_nul app_id ≡ false
    → has_nul other ≡ false
    → (app_id == other) ≡ false
    → starts_with (app_admin_key other user_guid) (app_admin_prefix app_id) ≡ false
unfolding app_admin_key app_admin_prefix
app_admin_key-apart app_id other user_guid plain plain' apart =
    elim (Bool-cases (starts_with ((other ^^ nul_text) ^^ user_guid) (app_id ^^ nul_text))) [
      | inr fine ↦ fine
      | inl begins ↦
          let (rest, e) =
            (starts_with_iff ((other ^^ nul_text) ^^ user_guid) (app_id ^^ nul_text)).0 begins in
          let same : app_id ≡ other =
            prefix_unique app_id other rest user_guid plain plain'
              (sym (joined app_id rest) ∙ e ∙ joined other user_guid) in
          absurd (ground (arith, (eq_iff app_id other).1 same))
    ]
