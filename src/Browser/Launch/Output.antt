-- ===== src/Browser/Launch/Output.antt =====
-- What launch_chrome reads from the child's output (wheel/browser/imp/cdp_browser_manager.cpp).
use mathlib.Core.List.{append_assoc}
use lynne_social.Prelude.{
  ℕ, suc, ◌≡◌, ◌≢◌, refl, ap, sym, ◌∙◌, true, false, none, some, [], ◌∷◌, ◌++◌, Text, txt, All,
  All-append, arith,
}
use lynne_social.Prelude.Find.{Without}
use lynne_social.Storage.Fs.{strip_prefix}
use lynne_social.Browser.Launch.{Poll, chunk, suffix_at, until_blank, is_blank, read_url, scheme}

-- A text without a byte that ends the url.
abbrev pub Unbroken : Text → Type 0
Unbroken = All (λ c. is_blank c ≡ false)

until_blank-append :
    (v : Text) (b : ℕ) (r : Text) → Unbroken v → is_blank b ≡ true → until_blank (v ++ (b ∷ r)) ≡ v
unfolding until_blank
until_blank-append [] b r h e = rw e refl
until_blank-append (c ∷ v) b r h e = rw (h.0, until_blank-append v b r h.1 e) refl

until_blank_all : (v : Text) → Unbroken v → until_blank v ≡ v
unfolding until_blank
until_blank_all [] h = refl
until_blank_all (c ∷ v) h = rw (h.0, until_blank_all v h.1) refl

suffix_at-cons :
    (needle : Text) (c : ℕ) (s u : Text)
    → strip_prefix needle (c ∷ s) ≡ none
    → suffix_at needle s ≡ some u
    → suffix_at needle (c ∷ s) ≡ some u
unfolding suffix_at
suffix_at-cons needle c s u h e = rw (h, suffix_at, e) refl

strip_prefix-scheme : (c : ℕ) (s : Text) → c ≢ b'w' → strip_prefix scheme (c ∷ s) ≡ none
unfolding strip_prefix txt
strip_prefix-scheme c s h = ground arith

suffix_at_self : (v : Text) → suffix_at scheme (scheme ++ v) ≡ some (scheme ++ v)
unfolding suffix_at strip_prefix txt
suffix_at_self v = refl

-- What stands before the url has no `w`, as "DevTools listening on " has none.
suffix_at-scheme :
    (pre v : Text) → Without b'w' pre → suffix_at scheme (pre ++ (scheme ++ v)) ≡ some (scheme ++ v)
suffix_at-scheme [] v h = suffix_at_self v
suffix_at-scheme (c ∷ pre) v h =
    suffix_at-cons scheme c (pre ++ (scheme ++ v)) (scheme ++ v) (strip_prefix-scheme c _ h.0)
      (suffix_at-scheme pre v h.1)

read_url_found :
    (k i : ℕ) (polls : ℕ → Poll) (acc t u : Text)
    → polls i ≡ chunk t
    → suffix_at scheme (acc ++ t) ≡ some u
    → read_url (suc k) i polls acc ≡ until_blank u
unfolding read_url
read_url_found k i polls acc t u h e = rw (h, read_url, e) refl

read_url-scheme :
    (k i : ℕ) (polls : ℕ → Poll) (acc pre v : Text)
    → Without b'w' acc
    → Without b'w' pre
    → polls i ≡ chunk (pre ++ (scheme ++ v))
    → read_url (suc k) i polls acc ≡ until_blank (scheme ++ v)
read_url-scheme k i polls acc pre v ha hp e =
    read_url_found k i polls acc (pre ++ (scheme ++ v)) (scheme ++ v) e (
      ap (suffix_at scheme) (sym (append_assoc acc pre (scheme ++ v)))
      ∙ suffix_at-scheme (acc ++ pre) v (All-append (λ c. c ≢ b'w') acc pre ha hp))

scheme-Unbroken : (v : Text) → Unbroken v → Unbroken (scheme ++ v)
unfolding txt
scheme-Unbroken v h = (refl, (refl, (refl, (refl, (refl, h)))))

-- A url that stands in a chunk with a blank behind it is taken whole.
pub read_url_whole :
    (k i : ℕ) (polls : ℕ → Poll) (acc pre v r : Text) (b : ℕ)
    → Without b'w' acc
    → Without b'w' pre
    → Unbroken v
    → is_blank b ≡ true
    → polls i ≡ chunk (pre ++ (scheme ++ (v ++ (b ∷ r))))
    → read_url (suc k) i polls acc ≡ scheme ++ v
read_url_whole k i polls acc pre v r b ha hp hv hb e =
    read_url-scheme k i polls acc pre (v ++ (b ∷ r)) ha hp e
    ∙ ap until_blank (sym (append_assoc scheme v (b ∷ r)))
    ∙ until_blank-append (scheme ++ v) b r (scheme-Unbroken v hv) hb

-- When a chunk of the output of Chrome ends inside the url, before any blank, and nothing before
-- it has a w, the url that is taken ends there too: the loop does not wait for the rest.
pub read_url_cut :
    (k i : ℕ) (polls : ℕ → Poll) (acc pre v : Text)
    → Without b'w' acc
    → Without b'w' pre
    → Unbroken v
    → polls i ≡ chunk (pre ++ (scheme ++ v))
    → read_url (suc k) i polls acc ≡ scheme ++ v
read_url_cut k i polls acc pre v ha hp hv e =
    read_url-scheme k i polls acc pre v ha hp e
    ∙ until_blank_all (scheme ++ v) (scheme-Unbroken v hv)
