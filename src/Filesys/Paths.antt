-- ===== src/Filesys/Paths.antt =====
-- `parse_path`: joining names by slashes and parsing gives the names back.
use pintos_filesys.Base.{
  ◌≤◌, ◌<◌, ◌≡◌, refl, ap, ◌∙◌, sym, arith, false, ok, List, [], ◌∷◌, ◌++◌, length, fault, has, ltb,
  ◌==◌, if◌then◌else◌, le→not_ltb, Bool-cases, inl, inr, has-append, subst, Bool-cases, inl, inr,
  has-append, subst,
}
use mathlib.Core.List.{append_assoc, append-nil}
use pintos_filesys.Directory.{Name}
use pintos_filesys.Filesys.{slash, tokens, end_token, parse_path}

-- A name that a path can hold.
abbrev pub IsPart : Name → Type 0
IsPart name = (0 < length name) × (has slash name ≡ false)

abbrev pub AreParts : List Name → Type 0
AreParts [] = Unit
AreParts (p ∷ ps) = IsPart p × AreParts ps

-- Each name with a slash before it.
abbrev pub join : List Name → Name
join [] = []
join (p ∷ ps) = slash ∷ p ++ join ps

tokens-part :
    (token p rest : Name)
    → has slash p ≡ false
    → tokens token (p ++ rest) ≡ tokens (token ++ p) rest
unfolding tokens
tokens-part token [] rest h = ap (λ t. tokens t rest) (sym (append-nil token))
tokens-part token (c ∷ cs) rest h =
    let inside : (c == slash) ≡ false = ground arith in
    rw (inside, tokens)
      (tokens-part (token ++ c ∷ []) cs rest (ground arith)
        ∙ ap (λ t. tokens t rest) (append_assoc token (c ∷ []) cs))

end_token-part : (p : Name) (ps : List Name) → 0 < length p → end_token p ps ≡ p ∷ ps
end_token-part [] ps lt = elim lt [ ]
end_token-part (c ∷ cs) ps lt = refl

tokens-join :
    (token : Name) (ps : List Name) → AreParts ps → tokens token (join ps) ≡ end_token token ps
unfolding tokens
tokens-join token [] a = refl
tokens-join token (p ∷ ps) (part, a) =
    ap (end_token token)
      (tokens-part [] p (join ps) part.1 ∙ tokens-join p ps a ∙ end_token-part p ps part.0)

end_token-AreParts :
    (token : Name) (ps : List Name)
    → has slash token ≡ false
    → AreParts ps
    → AreParts (end_token token ps)
end_token-AreParts [] ps h a = a
end_token-AreParts (t ∷ ts) ps h a = ((omega arith, h), a)

tokens-AreParts : (token path : Name) → has slash token ≡ false → AreParts (tokens token path)
unfolding tokens
tokens-AreParts token [] h = end_token-AreParts token [] h tt
tokens-AreParts token (c ∷ cs) h = elim (Bool-cases (c == slash)) [
  | inl e ↦ rw (e, tokens) (end_token-AreParts token (tokens [] cs) h (tokens-AreParts [] cs refl))
  | inr e ↦
      rw (e, tokens)
        (tokens-AreParts (token ++ c ∷ []) cs (ground (arith, has-append slash token (c ∷ []))))
]

-- Parsing the names that are joined with a slash before each, at most 127 of them, not empty and
-- without a slash, gives these names.
pub parse_path-join :
    (ps : List Name) → AreParts ps → length ps ≤ 127 → parse_path (join ps) ≡ ok ps
unfolding parse_path
parse_path-join ps a le = rw (tokens-join [] ps a, le→not_ltb 127 (length ps) le)

kept-AreParts :
    (ts ps : List Name)
    → AreParts ts
    → (if ltb 127 (length ts) then fault else ok ts) ≡ ok ps
    → AreParts ps × (length ps ≤ 127)
kept-AreParts ts ps a e = elim (Bool-cases (ltb 127 (length ts))) [
  | inl long ↦ absurd (cc (e, long))
  | inr fits ↦
      let same : ts ≡ ps = cc (e, fits) in
      subst (λ x. AreParts x × (length x ≤ 127)) same (a, ground (arith, fits))
]

-- What `parse_path` returns of any path is at most 127 names, not empty and without a slash.
pub parse_path-AreParts :
    (path : Name) (ps : List Name) → parse_path path ≡ ok ps → AreParts ps × (length ps ≤ 127)
unfolding parse_path
parse_path-AreParts path ps = kept-AreParts (tokens [] path) ps (tokens-AreParts [] path refl)
