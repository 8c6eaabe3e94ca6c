-- ===== src/Python.antt =====
-- The Python that the program is written in: values, dicts, exceptions, and the interpreter's and
-- third-party functions that stay parameters.
mod Data
mod Exceptions
mod Interpreter
mod Dicts
unfoldable pub use Data.*
unfoldable pub use Exceptions.*
unfoldable pub use Interpreter.*
pub use Dicts.*
