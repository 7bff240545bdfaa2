-- ===== src/Annotation/Actions.antt =====
-- src/annotation/annotation.h: what the annotations ask for.
use llama_cli.Base.Int.{ℤ}
use llama_cli.Base.{Text}

pub record WriteAction : Type 0 where
  pub path : Text
  pub content : Text

pub record StrReplaceAction : Type 0 where
  pub path : Text
  pub old_str : Text
  pub new_str : Text

pub record ReadAction : Type 0 where
  pub path : Text
  pub from_line : ℤ
  pub to_line : ℤ
  pub search : Text

pub record SearchAction : Type 0 where
  pub query : Text

pub record AddLineAction : Type 0 where
  pub path : Text
  pub line_number : ℤ
  pub content : Text

pub record DeleteLineAction : Type 0 where
  pub path : Text
  pub content : Text

-- the record of the role and the prompt; the field is named `type` in the source
pub record DelegateAction : Type 0 where
  pub role : Text
  pub prompt : Text
