-- ===== src/Fix/Cleaned.antt =====
-- path/filepath on Unix: a cleaned path that begins at the root has no `..`.
use devdiag.Base.{String, List, [], ◌∷◌, true, false, ◌≡◌, ◌=ₛ◌, any, refl, arith}
use devdiag.Base.Text.Split.{split}
use devdiag.Fix.Paths.{keep_part, reversed, clean_loop, clean}

-- No part of a path goes up.
abbrev pub StaysDown : List String → Type 0
StaysDown ps = any (λ part. part =ₛ "..") ps ≡ false

keep_part-StaysDown :
    (kept : List String) (p : String) → StaysDown kept → StaysDown (keep_part true kept p)
unfolding keep_part
keep_part-StaysDown [] p h = ground arith
keep_part-StaysDown (k ∷ ks) p h = ground arith

reversed-StaysDown :
    (done ps : List String) → StaysDown done → StaysDown ps → StaysDown (reversed done ps)
reversed-StaysDown done [] h k = h
reversed-StaysDown done (p ∷ ps) h k =
    reversed-StaysDown (p ∷ done) ps (ground arith) (ground arith)

clean_loop-StaysDown :
    (kept ps : List String) → StaysDown kept → StaysDown (clean_loop true kept ps)
unfolding clean_loop
clean_loop-StaysDown kept [] h = reversed-StaysDown [] kept refl h
clean_loop-StaysDown kept (p ∷ ps) h =
    clean_loop-StaysDown (keep_part true kept p) ps (keep_part-StaysDown kept p h)

pub clean-StaysDown : (s : String) → (clean s).rooted ≡ true → StaysDown (clean s).parts
unfolding clean
clean-StaysDown s h = rw h (clean_loop-StaysDown [] (split b'/' s) refl)
