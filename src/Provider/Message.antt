-- ===== src/Provider/Message.antt =====
-- src/ollama/ollama.h: `Message` and `ModelInfo`. The size in GB, a floating-point number, is left
-- as the text it is printed from.
use llama_cli.Base.{List, Text}

pub record Message : Type 0 where
  pub role : Text
  pub content : Text
  pub rating : Text
  pub images : List Text

pub record ModelInfo : Type 0 where
  pub name : Text
  pub params : Text
  pub quant : Text
  pub family : Text
  pub size_gb : Text
