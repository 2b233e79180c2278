-- ===== src/Clientconfig.antt =====
-- internal/kube/clientconfig/clientconfig.go: the configuration of the Kubernetes clients; and what the options
-- of the two commands share. `F` is Go's float32.
use clusterip_gw.Base.{
  ℕ, ℤ, pos, negsuc, String, Bool, true, false, List, [], ◌∷◌, ◌==◌, ◌!=◌, string_eq, nat_eq,
  if◌then◌else◌, ◌<>◌, Result, ok, err, Error, other, message,
}

-- The conversion of a constant, and the test against zero.
pub record Floats (F : Type 0) : Type 0 where
  pub of_nat : ℕ → F
  pub negative : F → Bool

abbrev pub is_negative : ℤ → Bool
is_negative (pos n) = false
is_negative (negsuc n) = true

abbrev pub is_positive : ℤ → Bool
is_positive (pos n) = n != 0
is_positive (negsuc n) = false

-- `fmt.Errorf("...: %w", err)`
unfoldable pub wrapped : String → Result (Unit {0}) → Result (Unit {0})
wrapped where_from (err e) = err (other (where_from <> message e))
wrapped where_from (ok u) = ok tt

-- What follows a check: the next one is made when it finds nothing.
unfoldable pub and_then : Result (Unit {0}) → Result (Unit {0}) → Result (Unit {0})
and_then (err e) next = err e
and_then (ok u) next = next

-- `strings.Join(args, " ")`
unfoldable pub joined : List String → String
joined [] = ""
joined (a ∷ []) = a
joined (a ∷ b ∷ rest) = a <> " " <> joined (b ∷ rest)

-- What pflag makes of the arguments: a request for help, an error, or the options with the arguments that
-- are no flags.
pub data FlagResult (O : Type 0) : Type 0 where
  help_requested : FlagResult O
  failed : Error → FlagResult O
  flags_set : O → List String → FlagResult O

-- clientconfig.Options
pub record ConnectionOptions (F : Type 0) : Type 0 where
  pub kubeconfig : String
  pub accept_content_types : String
  pub content_type : String
  pub qps : F
  pub burst : ℤ

-- rest.Config: `rest` is what the program does not set.
pub record RestConfig (F C : Type 0) : Type 0 where
  pub host : String
  pub accept_content_types : String
  pub content_type : String
  pub qps : F
  pub burst : ℤ
  pub rest : C

-- The deferred loading of client-go's clientcmd: by its default rules, or from the file of a path, each with the
-- server that overrides the file's.
pub record Loading (F C : Type 0) : Type 0 where
  pub by_default : String → Result (RestConfig F C)
  pub from_path : String → String → Result (RestConfig F C)

module _ {F C : Type 0} (loading : Loading F C) where
  unfoldable pub with_options : ConnectionOptions F → RestConfig F C → RestConfig F C
  with_options o c = record c {
    accept_content_types = o.accept_content_types;
    content_type = o.content_type;
    qps = o.qps;
    burst = o.burst;
  }

  unfoldable pub configured :
      ConnectionOptions F → Result (RestConfig F C) → Result (RestConfig F C)
  unfolding with_options
  configured o (err e) = err e
  configured o (ok c) = ok (with_options o c)

  in_cluster : ConnectionOptions F → String → Result (RestConfig F C) → Result (RestConfig F C)
  unfolding with_options configured
  in_cluster o master (ok c) =
      ok (with_options o (if master != "" then record c { host = master } else c))
  in_cluster o master (err e) =
      if master == "" then err e else configured o (loading.by_default master)

  -- Build; the configuration in the cluster is read only without a kubeconfig.
  unfoldable pub build :
      ConnectionOptions F → String → Result (RestConfig F C) → Result (RestConfig F C)
  unfolding configured in_cluster
  build o master in_cluster_config =
      if o.kubeconfig == ""
      then in_cluster o master in_cluster_config
      else configured o (loading.from_path o.kubeconfig master)
