-- ===== src/Storage/Artifacts.antt =====
-- storage/memory.py: `_apply_artifact`, the upsert of one artifact into a task, and its laws.
use a2akit.Prelude.{
  String, ◌≡◌, refl, Option, none, some, List, [], ◌∷◌, ◌++◌, arith, ◌==◌, eq_iff, if◌then◌else◌,
}
use a2akit.Wire.{Artifact, ArtifactWrite}

-- The code takes the first artifact with the identifier, and appends where there is none.
unfoldable pub apply_artifact : List Artifact → ArtifactWrite → List Artifact
apply_artifact [] w = w.artifact ∷ []
apply_artifact (a ∷ rest) w =
    if a.artifact_id == w.artifact.artifact_id
    then (if w.append then record a { parts = a.parts ++ w.artifact.parts } else w.artifact) ∷ rest
    else a ∷ apply_artifact rest w

unfoldable pub apply_artifacts : List Artifact → List ArtifactWrite → List Artifact
unfolding apply_artifact
apply_artifacts artifacts [] = artifacts
apply_artifacts artifacts (w ∷ ws) = apply_artifacts (apply_artifact artifacts w) ws

unfoldable pub find_artifact : String → List Artifact → Option Artifact
find_artifact k [] = none
find_artifact k (a ∷ rest) = if a.artifact_id == k then some a else find_artifact k rest

-- What one write leaves under its own identifier.
abbrev pub merged : Option Artifact → ArtifactWrite → Artifact
merged none w = w.artifact
merged (some a) w =
    if w.append then record a { parts = a.parts ++ w.artifact.parts } else w.artifact

-- A write leaves under its own identifier what it merges with the artifact that was there: the parts
-- are appended, or the artifact is replaced. Every other identifier finds what it found before.
pub find-apply_artifact :
    (k : String) (artifacts : List Artifact) (w : ArtifactWrite)
    → find_artifact k (apply_artifact artifacts w) ≡ (
        if w.artifact.artifact_id == k
        then some (merged (find_artifact w.artifact.artifact_id artifacts) w)
        else find_artifact k artifacts)
unfolding find_artifact apply_artifact
find-apply_artifact k [] w = refl
find-apply_artifact k (a ∷ rest) w = ground (
  arith,
  eq_iff a.artifact_id w.artifact.artifact_id,
  eq_iff w.artifact.artifact_id k,
  eq_iff a.artifact_id k,
  find-apply_artifact k rest w,
)
