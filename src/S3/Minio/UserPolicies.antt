-- ===== src/S3/Minio/UserPolicies.antt =====
-- internal/s3/client/impl/minioS3Client.go, GetUserPolicies: the names that the server has joined
-- to one text are read back.
use s3_operator.Prelude.{String, Bool, ◌≡◌, refl, ap, ◌∙◌, List, [], ◌∷◌, contains, All, arith}
use s3_operator.Text.{split, join, trim_space}
use s3_operator.Text.Split.{Lacks, split-join}
use s3_operator.S3.Minio.{user_policies_of}
use s3_operator.S3.Minio.Server.{IsName, Lists}

All-Lacks : (ps : List String) → All IsName ps → All (λ p. Lacks p b',') ps
All-Lacks [] h = tt
All-Lacks (p ∷ ps) h = (h.0.1, All-Lacks ps h.1)

user_policies_of-join :
    (text : String) (ps : List String)
    → All IsName ps
    → trim_space text ≡ join ps ","
    → user_policies_of text ≡ ps
unfolding user_policies_of join split
user_policies_of-join text [] h e = rw e refl
user_policies_of-join text (p ∷ []) h e =
    rw (e, split-join p [] (All-Lacks (p ∷ []) h)) (ground (arith, h.0.0))
user_policies_of-join text (p ∷ q ∷ ps) h e =
    rw (e, split-join p (q ∷ ps) (All-Lacks (p ∷ q ∷ ps) h)) (ground arith)

-- A user has a policy exactly if it is in the list that is read out of the server's text, if
-- the text, but for space around it, is the names of the user's policies joined by commas, of which
-- none is empty or has a comma.
pub user_policies_of-Lists :
    (has : String → Bool) (text : String)
    → Lists has text
    → (p : String) → contains (user_policies_of text) p ≡ has p
user_policies_of-Lists has text (ps, e, names, tells) p =
    ap (λ xs. contains xs p) (user_policies_of-join text ps names e) ∙ tells p
