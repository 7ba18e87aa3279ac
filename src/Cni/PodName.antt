-- ===== src/Cni/PodName.antt =====
-- What `get_regex` finds in the arguments that a runtime passes.
use tenant_cni.Base.{
  Bool, Text, [], arith, bytes, none, not, refl, some, true, ℕ, ◌&&◌, ◌++◌, ◌==◌, ◌∙◌, ◌∷◌, ◌≡◌,
  ◌≢◌,
}
use tenant_cni.Cni.Args.{get_regex, lazy_group, match_here, pod_name_key, shortest, strip}

abbrev is_plain : Text → Bool
is_plain [] = true
is_plain (c ∷ cs) = not (c == b';') && not (c == 10) && is_plain cs

-- No byte of a text is a semicolon or a line feed.
abbrev pub IsPlain : Text → Type 0
IsPlain s = is_plain s ≡ true

-- The key stands nowhere in the text.
abbrev pub NoKey : Text → Type 0
NoKey [] = Unit
NoKey (c ∷ cs) = (strip pod_name_key (c ∷ cs) ≡ none) × NoKey cs

shortest-IsPlain : (s rest : Text) → IsPlain s → shortest (s ++ (b';' ∷ rest)) ≡ some s
unfolding shortest
shortest-IsPlain [] rest h = refl
shortest-IsPlain (c ∷ s) rest h = ground (arith, shortest-IsPlain s rest, h)

lazy_group-IsPlain :
    (c : ℕ) (s rest : Text) → IsPlain (c ∷ s) → lazy_group ((c ∷ s) ++ (b';' ∷ rest)) ≡ some (c ∷ s)
unfolding lazy_group
lazy_group-IsPlain c s rest h = ground (arith, shortest-IsPlain s rest, h)

strip-append : (p s : Text) → strip p (p ++ s) ≡ some s
unfolding strip
strip-append [] s = refl
strip-append (c ∷ p) s = ground (arith, strip-append p s)

-- A key without a semicolon that is no prefix of a text is none where a semicolon follows.
strip-semicolon :
    (p s rest : Text) → IsPlain p → strip p s ≡ none → strip p (s ++ (b';' ∷ rest)) ≡ none
unfolding strip
strip-semicolon [] s rest h e = absurd (ground (arith, e))
strip-semicolon (c ∷ p) [] rest h e = ground (arith, h)
strip-semicolon (c ∷ p) (d ∷ s) rest h e = ground (arith, strip-semicolon p s rest, h, e)

key-IsPlain : IsPlain pod_name_key
key-IsPlain = refl

get_regex_here :
    (d : ℕ) (s rest : Text)
    → strip pod_name_key (d ∷ s) ≡ some rest
    → (group : Text) → lazy_group rest ≡ some group
    → get_regex (d ∷ s) ≡ some group
unfolding match_here get_regex
get_regex_here d s rest e group g =
    let found : match_here (d ∷ s) ≡ some group = rw (e, match_here) g in rw (found, get_regex) refl

get_regex_later :
    (d : ℕ) (s : Text) → strip pod_name_key (d ∷ s) ≡ none → get_regex (d ∷ s) ≡ get_regex s
unfolding match_here get_regex
get_regex_later d s e =
    let found : match_here (d ∷ s) ≡ none = rw (e, match_here) refl in rw (found, get_regex) refl

strip_no : (d : ℕ) (s : Text) → d ≢ b'K' → strip pod_name_key (d ∷ s) ≡ none
unfolding strip
strip_no d s h = ground (arith, h)

get_regex_at_entry :
    (c : ℕ) (name rest : Text)
    → IsPlain (c ∷ name)
    → get_regex (b';' ∷ (pod_name_key ++ ((c ∷ name) ++ (b';' ∷ rest)))) ≡ some (c ∷ name)
get_regex_at_entry c name rest h =
    let entry = (c ∷ name) ++ (b';' ∷ rest) in
    get_regex_later b';' (pod_name_key ++ entry)
      (strip_no b';' (pod_name_key ++ entry) (omega arith))
    ∙ get_regex_here b'K' (bytes "8S_POD_NAME=" ++ entry) entry (strip-append pod_name_key entry)
        (c ∷ name) (lazy_group-IsPlain c name rest h)

-- Behind entries that hold no key, the value of the entry `K8S_POD_NAME` is found, whatever follows it:
-- the entries end in a semicolon, as the entry does; the value is not empty and has neither a
-- semicolon nor a line feed.
pub get_regex_entry :
    (before : Text) (c : ℕ) (name rest : Text)
    → NoKey before
    → IsPlain (c ∷ name)
    → get_regex (before ++ (b';' ∷ (pod_name_key ++ ((c ∷ name) ++ (b';' ∷ rest)))))
      ≡ some (c ∷ name)
get_regex_entry [] c name rest k h = get_regex_at_entry c name rest h
get_regex_entry (d ∷ before) c name rest k h =
    get_regex_later d (before ++ (b';' ∷ (pod_name_key ++ ((c ∷ name) ++ (b';' ∷ rest))))) (
      strip-semicolon pod_name_key (d ∷ before) (pod_name_key ++ ((c ∷ name) ++ (b';' ∷ rest)))
        key-IsPlain k.0)
    ∙ get_regex_entry before c name rest k.1 h
