-- ===== src/Browser/Scripts.antt =====
-- The JavaScript that the contexts evaluate (cdp_browser_manager.cpp, browser_helpers.cpp), as texts.
use lynne_social.Prelude.{ℤ, ◌++◌, Text, txt}
use lynne_social.Prelude.Numerals.{to_string}
use lynne_social.Browser.Selector.{js_selector, js_text}

-- the script of click
unfoldable pub click_js : Text → Text
click_js selector =
    txt "(()=>{\n"
    ++ (txt "        const e=document.querySelector('"
        ++ (js_selector selector
            ++ (txt "');\n"
                ++ (txt "        if(!e)return false;\n"
                    ++ (txt
                          "        e.dispatchEvent(new MouseEvent('mousedown',{bubbles:true,cancelable:true,view:window}));\n"
                        ++ (txt
                              "        e.dispatchEvent(new MouseEvent('mouseup',{bubbles:true,cancelable:true,view:window}));\n"
                            ++ (txt
                                  "        e.dispatchEvent(new MouseEvent('click',{bubbles:true,cancelable:true,view:window}));\n"
                                ++ (txt
                                      "        if(e.tagName==='A'&&e.href)window.location.href=e.href;\n"
                                    ++ (txt
                                          "        else if(e.form&&(e.type==='submit'||e.tagName==='BUTTON'))e.form.submit();\n"
                                        ++ (txt "        return true;\n"
                                            ++ (txt "    })()")))))))))))

-- the script of hover
unfoldable pub hover_js : Text → Text
hover_js selector =
    txt "(()=>{\n"
    ++ (txt "        const e=document.querySelector('"
        ++ (js_selector selector
            ++ (txt "');\n"
                ++ (txt "        if(!e)return false;\n"
                    ++ (txt
                          "        e.dispatchEvent(new MouseEvent('mouseover',{bubbles:true,cancelable:true,view:window}));\n"
                        ++ (txt
                              "        e.dispatchEvent(new MouseEvent('mouseenter',{bubbles:false,cancelable:true,view:window}));\n"
                            ++ (txt "        return true;\n" ++ (txt "    })()"))))))))

-- the script of type
unfoldable pub type_js : Text → Text → Text
type_js selector text =
    txt "(()=>{const e=document.querySelector('"
    ++ (js_selector selector
        ++ (txt "');if(!e)return false;"
            ++ (txt "e.focus();e.value='"
                ++ (js_text text
                    ++ (txt "';"
                        ++ (txt "e.dispatchEvent(new Event('input',{bubbles:true}));"
                            ++ (txt "e.dispatchEvent(new Event('change',{bubbles:true}));"
                                ++ txt "return true;})()")))))))

-- the script of scroll
unfoldable pub scroll_js : ℤ → ℤ → Text
scroll_js delta_x delta_y =
    txt "window.scrollBy(" ++ (to_string delta_x ++ (txt "," ++ (to_string delta_y ++ txt ")")))

-- the script of exists and of wait_for_selector
unfoldable pub exists_js : Text → Text
exists_js selector = txt "!!document.querySelector('" ++ (js_selector selector ++ txt "')")

-- the script against detection that do_get_context installs
unfoldable pub stealth_js : Text
stealth_js =
    txt "\n"
    ++ (txt "Object.defineProperty(navigator, 'webdriver', {get: () => false});\n"
        ++ (txt "var pp=Object.getPrototypeOf(navigator.plugins);\n"
            ++ (txt "Object.defineProperty(navigator, 'plugins', {\n"
                ++ (txt "    get: () => {\n"
                    ++ (txt
                          "        var p1={name:'Chrome PDF Plugin',filename:'internal-pdf-viewer',description:'Portable Document Format',length:1};\n"
                        ++ (txt
                              "        var p2={name:'Chrome PDF Viewer',filename:'mhjfbmdgcfjbbpaeojofohoefgiehjai',description:'',length:1};\n"
                            ++ (txt
                                  "        var p3={name:'Native Client',filename:'internal-nacl-plugin',description:'',length:1};\n"
                                ++ (txt "        return Object.setPrototypeOf([p1,p2,p3],pp);\n"
                                    ++ (txt "    }\n"
                                        ++ (txt "});\n"
                                            ++ (txt
                                                  "var mp=Object.getPrototypeOf(navigator.mimeTypes);\n"
                                                ++ (txt
                                                      "Object.defineProperty(navigator, 'mimeTypes', {\n"
                                                    ++ (txt
                                                          "    get: () => Object.setPrototypeOf([{type:'application/pdf',suffixes:'pdf',description:''}],mp)\n"
                                                        ++ (txt "});\n"
                                                            ++ (txt
                                                            "Object.defineProperty(navigator, 'languages', {get: () => ['zh-CN','zh','en']});\n"
                                                            ++ (txt
                                                            "Object.defineProperty(navigator, 'hardwareConcurrency', {get: () => 4});\n"
                                                            ++ (txt
                                                            "window.chrome = {runtime:{}, loadTimes:()=>{}, csi:()=>{}};\n"
                                                            ++ (txt ""))))))))))))))))))

-- kDumpJs of browser_helpers.cpp
unfoldable pub dump_js : Text
dump_js =
    txt "\n"
    ++ (txt "JSON.stringify({u:document.URL,t:(document.title||'').slice(0,100),\n"
        ++ (txt "n:Array.from(document.querySelectorAll('*')).filter(function(e){\n"
            ++ (txt
                  " return e.id||(e.className&&typeof e.className==='string'&&e.className.trim())||e.getAttribute('role')||e.getAttribute('aria-label')||e.href||e.tagName==='INPUT'||e.tagName==='BUTTON'||e.tagName==='A'||e.tagName==='FORM'||e.tagName==='TEXTAREA'||e.tagName==='SELECT'\n"
                ++ (txt "}).slice(0,200).map(function(e){\n"
                    ++ (txt " var o={t:e.tagName.toLowerCase()};\n"
                        ++ (txt " if(e.id)o.i=e.id;\n"
                            ++ (txt
                                  " var c=(typeof e.className==='string'?e.className:'').trim().slice(0,80);if(c)o.c=c;\n"
                                ++ (txt " var r=e.getAttribute('role');if(r)o.r=r;\n"
                                    ++ (txt " var l=e.getAttribute('aria-label');if(l)o.l=l;\n"
                                        ++ (txt " var d=e.getAttribute('data-testid');if(d)o.d=d;\n"
                                            ++ (txt " if(e.href)o.h=e.href;\n"
                                                ++ (txt
                                                      " if(e.tagName==='INPUT'){var tp=e.getAttribute('type'),p=e.getAttribute('placeholder');if(tp)o.ty=tp;if(p)o.p=p;}\n"
                                                    ++ (txt
                                                          " if(e.tagName==='BUTTON'){var bt=e.getAttribute('type');if(bt)o.ty=bt;}\n"
                                                        ++ (txt
                                                            " if(e.tagName==='FORM'){var ac=e.getAttribute('action');if(ac)o.a=ac;}\n"
                                                            ++ (txt
                                                            " var tx=(e.textContent||'').trim().slice(0,60);if(tx&&(e.tagName==='A'||e.tagName==='BUTTON'||e.tagName==='SPAN'||e.tagName==='P'||e.tagName==='H1'||e.tagName==='H2'||e.tagName==='H3'||e.tagName==='LI'||e.tagName==='LABEL'||e.tagName==='DIV'))o.x=tx;\n"
                                                            ++ (txt " return o;\n"
                                                            ++ (txt "})})\n"
                                                            ++ (txt ""))))))))))))))))))
