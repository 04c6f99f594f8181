-- ===== src/Webhook/Injector/Steps.antt =====
-- What each step of the injectors does to the entries of one name.
use whatap_operator.Prelude.{
  String, false, Option, none, some, List, [], ◌∷◌, ◌++◌, ◌==◌, ◌⊕◌, ◌≡◌, refl, arith, eq_iff,
  eq_refl, or_else, ◌∙◌,
}
use whatap_operator.Env.{EnvVar, env_value, effective, count_name}
use whatap_operator.Env.Entries.{effective-append, count_name-append, has_name-eq-is_some}
use whatap_operator.Webhook.Names.{
  env_java_tool_options, env_python_path, env_nodejs_path, env_nodejs_options, env_okind,
}
use whatap_operator.Webhook.Injector.{
  inject_java_tool_options, add_agent_path, inject_python_path, inject_nodejs_path,
  inject_nodejs_options, with_okind,
}

-- The same first entry, and as many entries.
pub record SameFor (n : String) (xs ys : List EnvVar) : Type 0 where
  pub first : effective n xs ≡ effective n ys
  pub often : count_name n xs ≡ count_name n ys

pub SameFor-trans :
    {n : String} {xs ys zs : List EnvVar} → SameFor n xs ys → SameFor n ys zs → SameFor n xs zs
SameFor-trans p q = record { first = p.first ∙ q.first; often = p.often ∙ q.often }

SameFor-append :
    (n : String) (xs : List EnvVar) (e : EnvVar)
    → (e.name == n) ≡ false
    → SameFor n (xs ++ e ∷ []) xs
unfolding effective count_name
SameFor-append n xs e h = record {
  first = ground (arith, effective-append n xs (e ∷ []));
  often = ground (arith, count_name-append n xs (e ∷ []));
}

module _ (n : String) where
  pub inject_java_tool_options-SameFor :
      (es : List EnvVar) (o : String)
      → (env_java_tool_options == n) ≡ false
      → SameFor n (inject_java_tool_options es o) es
  unfolding inject_java_tool_options effective count_name
  inject_java_tool_options-SameFor [] o h = ground arith
  inject_java_tool_options-SameFor (e ∷ es) o h =
      ground (arith, eq_iff e.name env_java_tool_options, inject_java_tool_options-SameFor es o h)

  pub inject_python_path-SameFor :
      (es : List EnvVar) (o : String)
      → (env_python_path == n) ≡ false
      → SameFor n (inject_python_path es o) es
  unfolding inject_python_path effective count_name
  inject_python_path-SameFor [] o h = ground arith
  inject_python_path-SameFor (e ∷ es) o h =
      ground (arith, eq_iff e.name env_python_path, inject_python_path-SameFor es o h)

  pub inject_nodejs_path-SameFor :
      (es : List EnvVar) (o : String)
      → (env_nodejs_path == n) ≡ false
      → SameFor n (inject_nodejs_path es o) es
  unfolding inject_nodejs_path effective count_name
  inject_nodejs_path-SameFor [] o h = ground arith
  inject_nodejs_path-SameFor (e ∷ es) o h =
      ground (arith, eq_iff e.name env_nodejs_path, inject_nodejs_path-SameFor es o h)

  pub inject_nodejs_options-SameFor :
      (es : List EnvVar) (o : String)
      → (env_nodejs_options == n) ≡ false
      → SameFor n (inject_nodejs_options es o) es
  unfolding inject_nodejs_options effective count_name
  inject_nodejs_options-SameFor [] o h = ground arith
  inject_nodejs_options-SameFor (e ∷ es) o h =
      ground (arith, eq_iff e.name env_nodejs_options, inject_nodejs_options-SameFor es o h)

  pub add_agent_path-SameFor :
      (container_env es : List EnvVar) (name path : String)
      → (name == n) ≡ false
      → SameFor n (add_agent_path container_env es name path) es
  unfolding add_agent_path
  add_agent_path-SameFor container_env es name path h =
      ground (arith, SameFor-append n es (env_value name path) h)

  pub with_okind-SameFor :
      (es : List EnvVar) (okind : String)
      → (env_okind == n) ≡ false
      → SameFor n (with_okind es okind) es
  with_okind-SameFor es okind h = ground (arith, SameFor-append n es (env_value env_okind okind) h)

-- The first JAVA_TOOL_OPTIONS with the option behind its value, or a new one.
abbrev pub with_option : String → Option EnvVar → EnvVar
with_option o none = env_value env_java_tool_options o
with_option o (some e) = record e { value = e.value ⊕ " " ⊕ o }

pub effective-inject_java_tool_options :
    (es : List EnvVar) (o : String)
    → effective env_java_tool_options (inject_java_tool_options es o)
      ≡ some (with_option o (effective env_java_tool_options es))
unfolding inject_java_tool_options effective
effective-inject_java_tool_options [] o = refl
effective-inject_java_tool_options (e ∷ es) o =
    ground (arith, effective-inject_java_tool_options es o)

-- An agent path is that of the container's variables or the default one.
pub effective-add_agent_path :
    (container_env es : List EnvVar) (name path : String)
    → effective name es ≡ none
    → or_else
        (effective name container_env)
        (effective name (add_agent_path container_env es name path))
      ≡ or_else (effective name container_env) (some (env_value name path))
unfolding add_agent_path effective
effective-add_agent_path container_env es name path h = ground (
  arith,
  has_name-eq-is_some name container_env,
  has_name-eq-is_some name es,
  eq_refl name,
  effective-append name es (env_value name path ∷ []),
)
